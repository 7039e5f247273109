-- ===== src/Rules/Rpz/Owners.antt =====
-- What the lines of `rpz_records` answer at one name and below it. Loops over the three
-- dictionaries touch the two owners of each name alone.
use alderpoint_dns.Base.{
  Text, Bool, true, false, not, ◌||◌, List, [], ◌∷◌, ◌++◌, map, ◌≡◌, refl, ◌∙◌, any, keep, teq,
  teq_refl, if◌then◌else◌, arith, Bool-cases, inl, inr, ◌==◌, keep-append,
}
use mathlib.Core.List.{map-append, append-nil}
use alderpoint_dns.Rules.Rpz.{Rdata, Line, Output, wild, mem, emit, occupy, claim}

-- No domain name begins with an asterisk.
abbrev pub is_plain : Text → Bool
is_plain [] = true
is_plain (c ∷ cs) = not (c == 42)

abbrev pub IsPlain : Text → Type 0
IsPlain n = is_plain n ≡ true

unfoldable pub answers : Text → List Line → List Rdata
answers o lines = map (λ (l : Line). l.rdata) (keep (λ (l : Line). teq l.owner o) lines)

pub record OutView : Type 0 where
  pub here : List Rdata
  pub below : List Rdata
  pub taken : Bool
  pub taken_below : Bool

unfoldable pub out_view : Text → Output → OutView
out_view n out = record {
  here = answers n out.lines;
  below = answers (wild n) out.lines;
  taken = mem n out.occupied;
  taken_below = mem (wild n) out.occupied;
}

pub wild-ne : (m n : Text) → IsPlain n → teq (wild m) n ≡ false
unfolding teq
wild-ne m [] h = refl
wild-ne m (c ∷ cs) h = ground arith

pub ne-wild : (m n : Text) → IsPlain m → teq m (wild n) ≡ false
unfolding teq
ne-wild [] n h = refl
ne-wild (c ∷ cs) n h = ground arith

pub wild-wild : (m n : Text) → teq (wild m) (wild n) ≡ teq m n
unfolding teq
wild-wild m n = refl

answers-emit :
    (o n : Text) (d : Rdata) (out : Output)
    → answers n (emit o d out).lines
      ≡ (if teq o n then answers n out.lines ++ d ∷ [] else answers n out.lines)
unfolding answers keep
answers-emit o n d out = rw (keep-append, map-append) (go (teq o n))
  where
    old : List Rdata
    old = map (λ (l : Line). l.rdata) (keep (λ (l : Line). teq l.owner n) out.lines)

    go :
        (b : Bool)
        → old
            ++ map (λ (l : Line). l.rdata) (if b then record { owner = o; rdata = d } ∷ [] else [])
          ≡ (if b then old ++ d ∷ [] else old)
    go true = refl
    go false = append-nil old

mem-occupy :
    (o n : Text) (out : Output) → mem n (occupy o out).occupied ≡ (teq o n || mem n out.occupied)
unfolding mem any
mem-occupy o n out = refl

unfoldable pub put_here : Rdata → OutView → OutView
put_here d v = if v.taken then v else record v { here = v.here ++ d ∷ []; taken = true }

unfoldable pub put_below : Rdata → OutView → OutView
put_below d v =
    if v.taken_below then v else record v { below = v.below ++ d ∷ []; taken_below = true }

module _ (o n : Text) (out : Output) (e : teq o n ≡ false) (f : teq o (wild n) ≡ false) where
  pub emit_ne : (d : Rdata) → out_view n (emit o d out) ≡ out_view n out
  unfolding out_view
  emit_ne d = ground (arith, answers-emit o n d out, answers-emit o (wild n) d out)

  pub occupy_ne : out_view n (occupy o out) ≡ out_view n out
  unfolding out_view
  occupy_ne = ground (arith, mem-occupy o n out, mem-occupy o (wild n) out)

pub claim_ne :
    (o n : Text) (d : Rdata) (out : Output)
    → teq o n ≡ false
    → teq o (wild n) ≡ false
    → out_view n (claim o d out) ≡ out_view n out
unfolding claim
claim_ne o n d out e f = elim (Bool-cases (mem o out.occupied)) [
  | inl h ↦ rw h
  | inr h ↦ rw h (occupy_ne o n (emit o d out) e f ∙ emit_ne o n out e f d)
]

module _ (n : Text) (p : IsPlain n) where
  pub emit_here :
      (d : Rdata) (out : Output)
      → out_view n (emit n d out)
        ≡ record (out_view n out) { here = (out_view n out).here ++ d ∷ [] }
  unfolding out_view
  emit_here d out =
      ground
        (arith, answers-emit n n d out, answers-emit n (wild n) d out, teq_refl n, ne-wild n n p)

  pub emit_below :
      (d : Rdata) (out : Output)
      → out_view n (emit (wild n) d out)
        ≡ record (out_view n out) { below = (out_view n out).below ++ d ∷ [] }
  unfolding out_view
  emit_below d out = ground (
    arith,
    answers-emit (wild n) n d out,
    answers-emit (wild n) (wild n) d out,
    teq_refl (wild n),
    wild-ne n n p,
  )

  pub occupy_here :
      (out : Output) → out_view n (occupy n out) ≡ record (out_view n out) { taken = true }
  unfolding out_view
  occupy_here out =
      ground (arith, mem-occupy n n out, mem-occupy n (wild n) out, teq_refl n, ne-wild n n p)

  pub occupy_below :
      (out : Output)
      → out_view n (occupy (wild n) out) ≡ record (out_view n out) { taken_below = true }
  unfolding out_view
  occupy_below out = ground (
    arith,
    mem-occupy (wild n) n out,
    mem-occupy (wild n) (wild n) out,
    teq_refl (wild n),
    wild-ne n n p,
  )

  pub claim_here :
      (d : Rdata) (out : Output) → out_view n (claim n d out) ≡ put_here d (out_view n out)
  unfolding put_here out_view claim
  claim_here d out = ground (arith, emit_here d out, occupy_here (emit n d out))

  pub claim_below :
      (d : Rdata) (out : Output) → out_view n (claim (wild n) d out) ≡ put_below d (out_view n out)
  unfolding put_below out_view claim
  claim_below d out = ground (arith, emit_below d out, occupy_below (emit (wild n) d out))
