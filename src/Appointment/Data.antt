-- ===== src/Appointment/Data.antt =====
-- The rows of prisma/schema/appointment.prisma, with the columns of events, venues and users that
-- src/modules/appointment reads, and the permissions of src/types/permissions.ts.
use fox_passport_republic_ap.Prelude.{ℕ, Bool, true, false, Option, List, [], ◌∷◌, Text, Time, ◌==◌}

-- AppointmentKind
pub data Kind : Type 0 where
  organizer check_in_helper : Kind

-- AppointmentStatus
pub data Status : Type 0 where
  invited requested active declined ended : Status

-- AppointmentEndReason
pub data EndReason : Type 0 where
  removed left role_revoked owner_role_revoked : EndReason

pub data EventStatus : Type 0 where
  draft_event pending_event ongoing_event completed_event cancelled_event : EventStatus

pub data SystemRole : Type 0 where
  user admin_secretary admin : SystemRole

-- AppointmentPermission
pub data Permission : Type 0 where
  booking_check_in event_approve_bookings event_message_attendees : Permission
  event_message_suppliers event_manage_bids event_view_sales : Permission
  venue_calendar venue_approve_affiliations venue_reply venue_edit_listing : Permission
  venue_view_bookings : Permission

-- Exactly one of `eventId` and `venueId`, by a constraint of the database.
pub data Target : Type 0 where
  event_target venue_target : Text → Target

pub record Appointment : Type 0 where
  pub id : Text
  pub kind : Kind
  pub status : Status
  pub target : Target
  pub user_id : Text
  pub appointed_by_id : Text
  pub permissions : List Permission
  pub expires_at : Option Time
  pub responded_at : Option Time
  pub ended_at : Option Time
  pub ended_by_id : Option Text
  pub end_reason : Option EndReason

pub record Event : Type 0 where
  pub id : Text
  pub organizer_id : Text
  pub start_at : Time
  pub end_at : Time
  pub event_status : EventStatus
  pub accepts_organizer_requests : Bool

pub record Venue : Type 0 where
  pub id : Text
  pub mayor_id : Text
  pub accepts_organizer_requests : Bool

-- A user; `is_organizer` is `roleType.includes("organizer")`.
pub record User : Type 0 where
  pub id : Text
  pub email : Text
  pub is_organizer : Bool

-- A row of eventVenueTransaction; `is_approved` is `status === "approved"`.
pub record VenueBooking : Type 0 where
  pub event_id : Text
  pub venue_id : Text
  pub is_approved : Bool

pub record Tables : Type 0 where
  pub appointments : List Appointment
  pub events : List Event
  pub venues : List Venue
  pub users : List User
  pub venue_bookings : List VenueBooking

abbrev pub permission_code : Permission → ℕ
permission_code booking_check_in = 0
permission_code event_approve_bookings = 1
permission_code event_message_attendees = 2
permission_code event_message_suppliers = 3
permission_code event_manage_bids = 4
permission_code event_view_sales = 5
permission_code venue_calendar = 6
permission_code venue_approve_affiliations = 7
permission_code venue_reply = 8
permission_code venue_edit_listing = 9
permission_code venue_view_bookings = 10

abbrev pub event_organizer_permissions : List Permission
event_organizer_permissions =
    booking_check_in ∷ event_approve_bookings ∷ event_message_attendees ∷ event_message_suppliers
    ∷ event_manage_bids ∷ event_view_sales ∷ []

abbrev pub venue_organizer_permissions : List Permission
venue_organizer_permissions =
    booking_check_in ∷ venue_calendar ∷ venue_approve_affiliations ∷ venue_reply
    ∷ venue_edit_listing ∷ venue_view_bookings ∷ []

abbrev pub permissions_for_appointment : Kind → Target → List Permission
permissions_for_appointment check_in_helper _ = booking_check_in ∷ []
permissions_for_appointment organizer (event_target _) = event_organizer_permissions
permissions_for_appointment organizer (venue_target _) = venue_organizer_permissions

abbrev pub is_same_target : Target → Target → Bool
is_same_target (event_target a) (event_target b) = a == b
is_same_target (venue_target a) (venue_target b) = a == b
is_same_target _ _ = false

abbrev pub is_active : Status → Bool
is_active active = true
is_active _ = false

-- LIVE_STATUSES
abbrev pub is_live_status : Status → Bool
is_live_status invited = true
is_live_status requested = true
is_live_status active = true
is_live_status _ = false

abbrev pub is_answerable : Status → Bool
is_answerable invited = true
is_answerable requested = true
is_answerable _ = false

abbrev pub is_requested : Status → Bool
is_requested requested = true
is_requested _ = false

abbrev pub is_invited : Status → Bool
is_invited invited = true
is_invited _ = false

abbrev pub is_organizer_kind : Kind → Bool
is_organizer_kind organizer = true
is_organizer_kind check_in_helper = false

abbrev pub is_cancelled : EventStatus → Bool
is_cancelled cancelled_event = true
is_cancelled _ = false
