-- ===== src/Appointment/Team/Final.antt =====
-- An appointment that is declined or ended does not change.
use fox_passport_republic_ap.Prelude.{
  ◌==◌, Bool-cases, Text, Time, ==→eq, and_false, find_first, find_first_sound, true_not_false,
  find_first-untouched, ◌≡◌, refl, sym, ap, ◌∙◌, subst, inl, inr, true, false, ◌&&◌, none, some,
  some-injective, List,
}
use fox_passport_republic_ap.Appointment.Data.{Appointment, is_live_status}
use fox_passport_republic_ap.Appointment.Team.{has_id, end}
use fox_passport_republic_ap.Appointment.Team.Change.{
  Change, kept, inserted, answered, ended_many, next,
}

answered-other :
    (id i : Text) (a b : Appointment) (rows : List Appointment)
    → find_first (has_id id) rows ≡ some a
    → is_live_status a.status ≡ false
    → find_first (has_id i) rows ≡ some b
    → is_live_status b.status ≡ true
    → has_id i a ≡ false
answered-other id i a b rows at dead there live = elim (Bool-cases (has_id i a)) [
  | inl t ↦
      (let one_name =
          sym (==→eq a.id id (find_first_sound (has_id id) rows a at)) ∙ ==→eq a.id i t in
        let one_row =
          some-injective a b
            (sym at ∙ subst (λ j. find_first (has_id j) rows ≡ some b) (sym one_name) there) in
        elim (true_not_false (is_live_status b.status) live
          (subst (λ c. is_live_status c.status ≡ false) one_row dead)) [ ])
  | inr n ↦ n
]

pub Change-dead :
    (now : Time) (rows rows' : List Appointment) (id : Text) (a : Appointment)
    → Change now rows rows'
    → find_first (has_id id) rows ≡ some a
    → is_live_status a.status ≡ false
    → find_first (has_id id) rows' ≡ some a
Change-dead now rows _ id a (kept _) at dead = at
Change-dead now rows _ id a (inserted _ b fresh _ _ _) at dead = elim (Bool-cases (has_id id b)) [
  | inl t ↦
      (let impossible =
          sym (subst (λ i. find_first (has_id i) rows ≡ none) (==→eq b.id id t) fresh) ∙ at in
        cc)
  | inr n ↦ rw n at
]
Change-dead now rows _ id a (answered _ i b f there live keeps) at dead =
    find_first-untouched (has_id id) (has_id i) f rows a (λ c. ap (λ j. j == id) (keeps.same_id c))
      at (answered-other id i a b rows at dead there live)
Change-dead now rows _ id a (ended_many _ scope reason by) at dead =
    find_first-untouched (has_id id) (λ c. scope c && is_live_status c.status) (end reason by now)
      rows a (λ c. refl) at (rw dead (and_false (scope a)))
Change-dead now rows rows' id a (next _ mid _ c d) at dead =
    Change-dead now mid rows' id a d (Change-dead now rows mid id a c at dead) dead
