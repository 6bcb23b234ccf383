-- ===== src/Bidding/Data.antt =====
-- The rows that bids are about, in prisma/schema/event.prisma, and the parameters and errors of
-- src/modules/bidding/bidding.service.ts.
use fox_passport_republic_ap.Prelude.{ℕ, Bool, Option, List, Text, Time}
use fox_passport_republic_ap.Prelude.Int.{ℤ}

pub data Kind : Type 0 where
  service asset : Kind

-- BidStatus
pub data Status : Type 0 where
  pending accepted rejected withdrawn : Status

-- The roles of a user that the code reads.
pub data Role : Type 0 where
  service_foxer performer_foxer gear_foxer provider_foxer other_role : Role

pub data EventStatus : Type 0 where
  open_event completed_event cancelled_event : EventStatus

pub data Error : Type 0 where
  provider_not_found no_capability listing_not_found not_owner event_not_found event_over : Error
  requirement_not_found wrong_template already_applied : Error
  bid_not_found not_host own_bid not_pending : Error
  listing_moved listing_unavailable quantity_short already_fulfilled : Error
  unavailable missing_relation duplicate_id : Error

-- A bid. `slot_id` is eventTemplateServiceId or eventTemplateAssetId, `listing_id` is
-- proposedServiceId or proposedAssetId; the quantity of a service bid is not read. Prices in cents.
pub record Bid : Type 0 where
  pub id : Text
  pub event_id : Text
  pub slot_id : Text
  pub provider_id : Text
  pub listing_id : Text
  pub proposed_price : ℤ
  pub proposed_quantity : ℕ
  pub status : Status

pub record User : Type 0 where
  pub id : Text
  pub role_type : List Role

-- A service or an asset; `is_available` is `status === "available"`.
pub record Listing : Type 0 where
  pub id : Text
  pub owner_id : Text
  pub is_available : Bool

pub record Event : Type 0 where
  pub id : Text
  pub organizer_id : Text
  pub template_id : Text
  pub start_at : Time
  pub end_at : Time
  pub event_status : EventStatus

-- A slot of a template. The quantity of a service's slot is not read.
pub record Requirement : Type 0 where
  pub id : Text
  pub template_id : Text
  pub quantity : ℕ

-- The transaction that an accepted bid creates, pending and not included in the template.
pub record Reservation : Type 0 where
  pub event_id : Text
  pub listing_id : Text
  pub provider_id : Text
  pub agreed_price : ℤ
  pub quantity : ℕ

-- The tables of one kind.
pub record Board : Type 0 where
  pub users : List User
  pub events : List Event
  pub listings : List Listing
  pub requirements : List Requirement
  pub bids : List Bid
  pub reservations : List Reservation

-- What `reserve` is asked.
pub record CheckItem : Type 0 where
  pub kind : Kind
  pub item_id : Text
  pub start : Time
  pub end : Time
  pub quantity : Option ℕ
  pub event_id : Option Text

pub record Deps : Type 0 where
  pub can_manage_bids : Board → Text → Text → Bool
  pub reserve : Board → CheckItem → Bool

pub record Submission : Type 0 where
  pub event_id : Text
  pub slot_id : Text
  pub provider_id : Text
  pub listing_id : Text
  pub proposed_price : ℤ
  pub proposed_quantity : Option ℕ
