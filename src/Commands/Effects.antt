-- ===== src/Commands/Effects.antt =====
-- What a command of one call does to what the other calls know of the abstract queue.
use codehive.Queue.Memory.{assign}
use codehive.Commands.{popping, storing, changing, looking, taking, adding, Command}
use codehive.System.Lasting.{Change-Retired, Change-Known, Retired, Known}
use codehive.System.Changes.{IsKept, put, add, drop_first, write, stay, IsCareful, Change}
use codehive.Queue.Spec.{spec_call, Spec}
use codehive.Prelude.{
  arith, none, eq_iff, false, ap, inr, sym, str_eq, inl, Bool-cases, ◌∙◌, some, ◌≡◌, String,
}

-- what a call that waits for a reply relies on
abbrev pub Fits : Spec → Command → Type 0
Fits s (adding id at request) = (str_eq id "" ≡ false) × (s.job id ≡ none)
Fits s popping = Unit
Fits s (taking id) = Retired id s
Fits s (looking id) = Unit
Fits s (changing id u) = (now : String) → IsCareful id (assign u now)
Fits s (storing id j) = Known id s × IsKept id j

-- a change that adds no job of this identifier
abbrev pub Adds : {s t : Spec} → Change s t → String → Type 0
Adds (add id now request new) k = id ≡ k
Adds _ k = ⊥

-- an identifier that no job has, and that another call adds
abbrev pub Spares : {s t : Spec} → Change s t → Command → Type 0
Spares e (adding id at request) = Adds e id → ⊥
Spares e _ = Unit

still_new :
    {s t : Spec} (id : String) (e : Change s t)
    → (Adds e id → ⊥)
    → s.job id ≡ none
    → t.job id ≡ none
unfolding spec_call
still_new {s} id (add i now request new) n e = elim (Bool-cases (str_eq i id)) [
  | inl same ↦ absurd (n ((eq_iff i id).0 same))
  | inr other ↦ rw other e
]
still_new id drop_first n e = e
still_new id (write i f c) n e = ground (arith, e)
still_new id stay n e = e
still_new {s} id (put i j known good) n e = elim (Bool-cases (str_eq i id)) [
  | inl same ↦
      let (x, at_i) = known in
      let at_id : s.job id ≡ some x = ap s.job (sym ((eq_iff i id).0 same)) ∙ at_i in
      absurd (cc (e, at_id))
  | inr other ↦ rw other e
]

pub Change-Fits : {s t : Spec} (c : Command) (e : Change s t) → Spares e c → Fits s c → Fits t c
Change-Fits (adding id at request) e n f = (f.0, still_new id e n f.1)
Change-Fits popping e n f = tt
Change-Fits (taking id) e n f = Change-Retired id e f
Change-Fits (looking id) e n f = tt
Change-Fits (changing id u) e n f = f
Change-Fits {s} {t} (storing id j) e n f = (Change-Known {s = s} {t = t} id e f.0, f.1)
