-- ===== src/Health/Logs/Order.antt =====
-- The order of the log rows.
use dockfleet.Prelude.{◌≡◌, true, false, some, eqb, arith}
use dockfleet.Health.Logs.{LogEvent, newer, behind}

-- Primary keys differ.
abbrev pub Apart : LogEvent → LogEvent → Type 0
Apart a b = eqb a.id b.id ≡ false

pub newer_total : (a b : LogEvent) → Apart a b → newer a b ≡ false → newer b a ≡ true
unfolding newer
newer_total a b d h = ground arith

pub newer_trans : (a b c : LogEvent) → newer a b ≡ true → newer b c ≡ true → newer a c ≡ true
unfolding newer
newer_trans a b c h k = ground arith

pub newer_irrefl : (a : LogEvent) → newer a a ≡ false
unfolding newer
newer_irrefl a = ground arith

pub newer_asym : (a b : LogEvent) → newer a b ≡ true → newer b a ≡ false
unfolding newer
newer_asym a b h = ground arith

-- The rows behind the cursor of a row are those that it is newer than.
pub behind-newer : (a b : LogEvent) → behind (some (a.created_at, a.id)) b ≡ newer a b
unfolding newer behind
behind-newer a b = ground arith
