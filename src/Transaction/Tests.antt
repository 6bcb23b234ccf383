-- ===== src/Transaction/Tests.antt =====
-- Runs of the transitions, and the theorems at a small event.
use fox_passport_republic_ap.Prelude.{
  ◌≡◌, refl, ◌⊎◌, ◌↔◌, not, none, some, List, [], ◌∷◌, Text, Time, ok, err, is_ok, arith, ◌≢◌,
}
use fox_passport_republic_ap.Transaction.{
  pending_provider_confirmation, approved, rejected, cancelled, Kind, asset, venue, confirm, cancel,
  expire, deadline_passed, invalid_transition, actor_unauthorized, deadline_expired, Row, Tables,
  Args, review, transition,
}
use fox_passport_republic_ap.Transaction.Step.{rank, Moved, transition_iff}
use fox_passport_republic_ap.Transaction.Trace.{
  lookup, Later, confirm_or_expire, transition_frame, run, run-Later,
}

-- A speaker that waits for its provider 7, booked by citizen 9.
abbrev speaker : Row
speaker = record {
  id = 1;
  provider_id = 7;
  booking_id = some 4;
  booking_owner = some 9;
  status = pending_provider_confirmation;
  confirmation_deadline = some 100;
  rejection_reason = none;
}

abbrev approved_speaker : Row
approved_speaker = record speaker { status = approved }

-- A capacity request for a venue, and a venue of another booking that was called off.
abbrev hall : Row
hall = record speaker { id = 2; status = pending_provider_confirmation; provider_id = 8 }

abbrev gone : Row
gone = record speaker { id = 3; status = cancelled }

abbrev event : Tables
event = record { asset_rows = speaker ∷ []; service_rows = []; venue_rows = hall ∷ gone ∷ [] }

abbrev confirm_speaker : Args
confirm_speaker = record { id = 1; kind = asset; action = confirm; actor_id = some 7 }

abbrev confirmed_event : Tables
confirmed_event = record event { asset_rows = approved_speaker ∷ [] }

abbrev requests : List (Time × Args)
requests =
    (100, confirm_speaker)
    ∷ (101, confirm_speaker)
    ∷ (101, record confirm_speaker { id = 2; kind = venue; action = expire; actor_id = none })
    ∷ (102, record confirm_speaker { id = 3; kind = venue; action = cancel; actor_id = some 9 })
    ∷ []

confirmed_at_deadline :
    transition 100 confirm_speaker event ≡ ok (approved_speaker, confirmed_event)
unfolding transition
confirmed_at_deadline = refl

late_confirm : transition 101 confirm_speaker event ≡ err deadline_passed
unfolding transition
late_confirm = refl

wrong_provider :
    transition 50 (record confirm_speaker { actor_id = some 8 }) event ≡ err actor_unauthorized
unfolding transition
wrong_provider = refl

early_expire :
    transition 100 (record confirm_speaker { action = expire; actor_id = none }) event
    ≡ err (invalid_transition asset pending_provider_confirmation expire)
unfolding transition
early_expire = refl

run_of_requests : run requests event ≡ record {
  asset_rows = approved_speaker ∷ [];
  service_rows = [];
  venue_rows =
      record hall { status = rejected; rejection_reason = some deadline_expired } ∷ gone ∷ [];
}
unfolding run transition
run_of_requests = refl

transition_iff_example :
    (transition 100 confirm_speaker event ≡ ok (approved_speaker, confirmed_event))
    ↔ Moved asset 100 confirm_speaker event speaker approved_speaker confirmed_event
transition_iff_example =
    transition_iff 100 confirm_speaker event speaker approved_speaker confirmed_event refl

confirm_or_expire_example :
    is_ok (review venue 100 hall confirm (some 8)) ≡ not (is_ok (review venue 100 hall expire none))
confirm_or_expire_example = confirm_or_expire venue 100 hall refl (omega arith)

transition_frame_example :
    (lookup asset 1 confirmed_event ≡ some approved_speaker)
    × ((k : Kind) (j : Text)
        → (k ≢ asset) ⊎ (j ≢ 1)
        → lookup k j confirmed_event ≡ lookup k j event)
transition_frame_example =
    transition_frame 100 confirm_speaker event approved_speaker confirmed_event
      confirmed_at_deadline

run-Later_example :
    (new : Row) × (lookup venue 3 (run requests event) ≡ some new)
    × Later gone new
    × (rank cancelled ≡ 2 → new ≡ gone)
run-Later_example = run-Later requests event venue 3 gone refl
