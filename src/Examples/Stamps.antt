-- ===== src/Examples/Stamps.antt =====
-- Time stamps of docker.
use dockfleet.Prelude.{◌≡◌, refl, some, none, codes}
use dockfleet.Health.Ingest.Stamp.{
  normal_form, match_places, fits, is_digit, with_t, span_digits, micros, zone, behind_base,
  on_base, with_fraction,
}

nanoseconds :
    normal_form (codes "2026-10-15 14:23:07.123456789Z")
    ≡ some (codes "2026-10-15T14:23:07.123456+00:00")
unfolding normal_form match_places fits is_digit with_t span_digits micros zone behind_base on_base
    with_fraction
nanoseconds = refl

short_zone :
    normal_form (codes "2026-10-15T14:23:07.5+0530")
    ≡ some (codes "2026-10-15T14:23:07.500000+05:30")
unfolding normal_form match_places fits is_digit with_t span_digits micros zone behind_base on_base
    with_fraction
short_zone = refl

no_stamp : normal_form (codes "ready") ≡ none
unfolding normal_form match_places fits is_digit on_base
no_stamp = refl
