-- ===== src/Dashboard/Format.antt =====
-- The texts of dashboard/src/lib/api.ts for spans of time: whole seconds of `formatUptime`, and whole
-- milliseconds since a moment of `timeAgo` that is not in the future. How a number is printed is an
-- argument.
use codehive.Prelude.{
  ℕ, zero, suc, ◌/◌, ◌%◌, ◌*◌, ◌+◌, ◌<◌, String, List, [], ◌∷◌, ◌++◌, if◌then◌else◌, ◌≡◌, arith,
  ltb,
}
use Prim.Native.String.{◌++◌ as str_append}

-- the three numbers of `formatUptime`
unfoldable pub days : ℕ → ℕ
days seconds = seconds / 86400

unfoldable pub hours : ℕ → ℕ
hours seconds = seconds % 86400 / 3600

unfoldable pub minutes : ℕ → ℕ
minutes seconds = seconds % 3600 / 60

-- `parts.join(" ")`
abbrev pub join_words : List String → String
join_words [] = ""
join_words (x ∷ []) = x
join_words (x ∷ y ∷ xs) = let rest = join_words (y ∷ xs) in str_append x (str_append " " rest)

module _ (print : ℕ → String) where
  -- `if (n) parts.push(...)`
  abbrev pub part : ℕ → String → List String
  part zero mark = []
  part (suc n) mark = str_append (print (suc n)) mark ∷ []

  unfoldable pub format_uptime : ℕ → String
  unfolding days hours minutes
  format_uptime seconds = join_words (
      part (days seconds) "d"
      ++ part (hours seconds) "h"
      ++ str_append (print (minutes seconds)) "m" ∷ [])

  abbrev pub ago : ℕ → String → String
  ago n mark = str_append (print n) (str_append mark " ago")

  -- `timeAgo` of a moment `diff` milliseconds ago
  unfoldable pub time_ago : ℕ → String
  time_ago diff =
      let s = diff / 1000 in
      let m = s / 60 in
      let h = m / 60 in
      if ltb s 60
      then ago s "s"
      else if ltb m 60
      then ago m "m"
      else if ltb h 24
      then ago h "h"
      else ago (h / 24) "d"

-- The numbers that are shown are those of the span, cut to the minute: fewer than 24 hours and fewer than
-- 60 minutes, and less than a minute is left out.
pub uptime-cut :
    (seconds : ℕ)
    → (hours seconds < 24)
      × (minutes seconds < 60)
      × ((r : ℕ) × (r < 60)
          × (seconds ≡ days seconds * 86400 + hours seconds * 3600 + minutes seconds * 60 + r))
unfolding days hours minutes
uptime-cut s = (omega arith, omega arith, (s % 60, omega arith, omega arith))
