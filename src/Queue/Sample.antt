-- ===== src/Queue/Sample.antt =====
-- A Redis server and a JSON codec that meet the laws of `Platform`: dictionaries of texts and of
-- lists, where the text of a job is the job.
use codehive.Prelude.Exec.{ok}
use codehive.Queue.Platform.{Platform}
use codehive.Queue.Memory.{tail_order}
use codehive.Prelude.Int.{minus_one, negsuc, pos, ℤ}
use codehive.Prelude.{
  true, eq_refl, if◌then◌else◌, refl, zero, ap, eq_iff, drop, suc, some, false, arith, take, ◌-◌,
  ◌∷◌, ◌++◌, str_eq, length, ◌+◌, reverse, none, [], ◌≢◌, Option, ◌≡◌, get_or, ℕ, List, String,
}
use codehive.Types.{Job}
use mathlib.Core.List.{reverse-append, reverse-reverse}
use codehive.Prelude.Dict.{Dict, get-put}
use codehive.Prelude.Dict

pub record Store : Type 0 where
  pub texts : Dict Job
  pub lists : Dict (List String)

unfoldable pub items_of : String → Store → List String
items_of k s = get_or (Dict.get k s.lists) []

unfoldable pub write_items : String → List String → Store → Store
write_items k l s = record s { lists = Dict.put k l s.lists }

items_of-write_items :
    (j k : String) (l : List String) (s : Store)
    → items_of k (write_items j l s) ≡ (if str_eq j k then l else items_of k s)
unfolding items_of write_items
items_of-write_items j k l s = rw get-put (ground arith)

-- the last item, and the list without it, of a list that is given from its end
abbrev last_of : List String → Option String
last_of [] = none
last_of (v ∷ l) = some v

unfoldable pub pop_last : String → Store → Option String × Store
pop_last k s =
    let back = reverse (items_of k s) in (last_of back, write_items k (reverse (tail_order back)) s)

-- LRANGE's start, and the place behind its end, in a list of `n` items
abbrev range_start : ℕ → ℤ → ℕ
range_start n (pos a) = a
range_start n (negsuc a) = n - suc a

abbrev range_end : ℕ → ℤ → ℕ
range_end n (pos b) = b + 1
range_end n (negsuc b) = n - b

unfoldable pub range_of : String → ℤ → ℤ → Store → List String
range_of k a b s =
    let l = items_of k s in
    let n = length l in take (range_end n b - range_start n a) (drop (range_start n a) l)

take-length : (l : List String) (n : ℕ) → n ≡ length l → take n l ≡ l
take-length [] zero e = refl
take-length [] (suc n) e = refl
take-length (x ∷ l) zero e = absurd (omega arith)
take-length (x ∷ l) (suc n) e = ap (λ r. x ∷ r) (take-length l n (omega arith))

pub range_of-all : (k : String) (s : Store) → range_of k (pos 0) minus_one s ≡ items_of k s
unfolding range_of
range_of-all k s = take-length _ _ (omega arith)

ne-str_eq : (j k : String) → j ≢ k → str_eq j k ≡ false
ne-str_eq j k h = ground (arith, eq_iff j k)

module _ (k : String) (s : Store) where
  pub pop_last-empty : items_of k s ≡ [] → (pop_last k s).0 ≡ none
  unfolding pop_last
  pop_last-empty e = rw e

  pub items_of-pop_last_empty : items_of k s ≡ [] → items_of k (pop_last k s).1 ≡ []
  items_of-pop_last_empty e = unfold pop_last in rw (items_of-write_items, eq_refl, e)

  module _ (l : List String) (v : String) (e : items_of k s ≡ l ++ v ∷ []) where
    pub pop_last-nonempty : (pop_last k s).0 ≡ some v
    unfolding pop_last
    pop_last-nonempty = rw (e, reverse-append)

    pub items_of-pop_last : items_of k (pop_last k s).1 ≡ l
    unfolding pop_last
    items_of-pop_last = rw (items_of-write_items, eq_refl, e, reverse-append) (reverse-reverse l)

lists_apart :
    (j k : String) (l : List String) (s : Store)
    → j ≢ k
    → items_of k (write_items j l s) ≡ items_of k s
lists_apart j k l s h = rw (items_of-write_items, ne-str_eq j k h)

pub items_of-lpush :
    (k v : String) (s : Store) → items_of k (write_items k (v ∷ items_of k s) s) ≡ v ∷ items_of k s
items_of-lpush k v s = rw (items_of-write_items, eq_refl)

pub texts-write_items :
    (j k : String) (l : List String) (s : Store)
    → Dict.get k (write_items j l s).texts ≡ Dict.get k s.texts
unfolding write_items
texts-write_items j k l s = refl

pub texts-pop_last :
    (j k : String) (s : Store) → Dict.get k (pop_last j s).1.texts ≡ Dict.get k s.texts
unfolding pop_last
texts-pop_last j k s = texts-write_items j k _ s

pub range_of-pos :
    (k : String) (a b : ℕ) (s : Store)
    → range_of k (pos a) (pos b) s ≡ take (b + 1 - a) (drop a (items_of k s))
unfolding range_of
range_of-pos k a b s = refl

pub items_of-texts :
    (k : String) (d : Dict Job) (s : Store) → items_of k (record s { texts = d }) ≡ items_of k s
unfolding items_of
items_of-texts k d s = refl

abbrev pub sample : Platform Store Job
sample = record {
  set = λ k v s. record s { texts = Dict.put k v s.texts };
  get = λ k s. Dict.get k s.texts;
  lpush = λ k v s. write_items k (v ∷ items_of k s) s;
  rpop = pop_last;
  items = items_of;
  lrange = range_of;
  llen = λ k s. length (items_of k s);
  ping = λ s. true;
  stringify = λ j. j;
  parse = ok;
  blank = λ j. false;
  get-set = λ j k v s. get-put j k v s.texts;
  items-set = λ j k v s h. items_of-texts k _ s;
  get-lpush = λ j k v s h. texts-write_items j k _ s;
  get-rpop = λ j k s h. texts-pop_last j k s;
  items-lpush = items_of-lpush;
  rpop-empty = pop_last-empty;
  items-rpop_empty = items_of-pop_last_empty;
  rpop-last = pop_last-nonempty;
  items-rpop_last = items_of-pop_last;
  lrange-pos = range_of-pos;
  lrange-all = range_of-all;
  llen-items = λ k s. refl;
  parse-stringify = λ j. refl;
  stringify-ne = λ j. refl;
}

abbrev pub no_store : Store
no_store = record { texts = []; lists = [] }
