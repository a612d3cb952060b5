-- ===== src/Poll/Election.antt =====
-- A whole history of ballots, cast one after the other.
use Prim.Native.String.{String}
use text.Mathlib.Text.{◌==◌ as str_eq}
use text.Mathlib.TextEquality.{eq_iff}
use node_ecies_lib.Prelude.{
  ℕ, ◌+◌, ◌%◌, ◌≡◌, refl, sym, ap, ◌∙◌, Bool, true, false, inl, inr, ◌⊎◌, List, [], ◌∷◌, ◌++◌,
  append_assoc, append-nil, All, arith, if◌then◌else◌,
}
use node_ecies_lib.Errors.{ok}
use node_ecies_lib.Buffer.{Bytes}
use node_ecies_lib.Paillier.{Paillier, IsHomomorphic}
use node_ecies_lib.Poll.State.{
  Poll, Outcome, done, threw, PollError, ReceiptService, ReceiptInput, member_voted, lookup, insert,
  encrypted_receipt, is_some,
}
use node_ecies_lib.Poll.Tallies.{tally, tally_unchanged}
use node_ecies_lib.Poll.Loops.{add_up}
use node_ecies_lib.Poll.Cast.{Ballot, amount, IsWellSized, cast}
use node_ecies_lib.Poll.Storing.{cast-IsWellSized, cast-stores, cast-throws}
use node_ecies_lib.Poll.Counting.{cast-tally}

pub Outcome-cases :
    {A : Type 0} (o : Outcome A) → ((a : A) × (o ≡ done a)) ⊎ ((e : PollError) × (o ≡ threw e))
Outcome-cases (done a) = inl (a, refl)
Outcome-cases (threw e) = inr (e, refl)

pub record Call (R : Type 0) : Type 0 where
  pub ballot : Ballot
  pub member : String
  pub rand : ℕ → R
  pub input : ReceiptInput

abbrev pub elem : String → List String → Bool
elem x [] = false
elem x (y ∷ ys) = if str_eq y x then true else elem x ys

abbrev pub AreDistinct : List String → Type 0
AreDistinct [] = Unit
AreDistinct (x ∷ xs) = (elem x xs ≡ false) × AreDistinct xs

abbrev pub voters : List (String × Bytes) → List String
voters [] = []
voters ((m, r) ∷ rest) = m ∷ voters rest

abbrev pub members : List (String × Ballot) → List String
members [] = []
members ((m, b) ∷ rest) = m ∷ members rest

abbrev pub total_amount : List (String × Ballot) → ℕ → ℕ
total_amount [] k = 0
total_amount ((m, b) ∷ rest) k = amount b k + total_amount rest k

insert-fresh :
    (m : String) (r : Bytes) (rs : List (String × Bytes))
    → is_some (lookup m rs) ≡ false
    → voters (insert m r rs) ≡ voters rs ++ m ∷ []
unfolding lookup insert
insert-fresh m r [] h = refl
insert-fresh m r ((j, v) ∷ rs) h = ground (arith, insert-fresh m r rs)

elem-voters :
    (m : String) (rs : List (String × Bytes))
    → is_some (lookup m rs) ≡ false
    → elem m (voters rs) ≡ false
unfolding lookup
elem-voters m [] h = refl
elem-voters m ((j, v) ∷ rs) h = ground (arith, elem-voters m rs)

elem-append :
    (x y : String) (xs : List String)
    → elem x xs ≡ false
    → str_eq y x ≡ false
    → elem x (xs ++ y ∷ []) ≡ false
elem-append x y [] h g = ground arith
elem-append x y (z ∷ xs) h g = ground (arith, elem-append x y xs)

pub AreDistinct-append :
    (y : String) (xs : List String)
    → AreDistinct xs
    → elem y xs ≡ false
    → AreDistinct (xs ++ y ∷ [])
AreDistinct-append y [] d h = (refl, tt)
AreDistinct-append y (x ∷ xs) d h =
    ground (arith, elem-append x y xs, AreDistinct-append y xs, eq_iff x y, eq_iff y x)

module _ {C R : Type 0} (key : Paillier C R) (service : ReceiptService) where
  unfoldable pub step : Poll C → Call R → Poll C × Outcome Bytes
  step p c = cast key service c.rand c.input p c.ballot c.member

  unfoldable pub run : Poll C → List (Call R) → Poll C
  run p [] = p
  run p (c ∷ cs) = run (step p c).0 cs

  abbrev keep : Outcome Bytes → String × Ballot → List (String × Ballot) → List (String × Ballot)
  keep (done r) mb rest = mb ∷ rest
  keep (threw e) mb rest = rest

  -- The ballots whose call returned a receipt.
  unfoldable pub accepted : Poll C → List (Call R) → List (String × Ballot)
  accepted p [] = []
  accepted p (c ∷ cs) = keep (step p c).1 (c.member, c.ballot) (accepted (step p c).0 cs)

  -- The receipt of the call can be signed and encrypted.
  abbrev pub HasReceipt : Call R → Type 0
  HasReceipt c = (e : Bytes) × (encrypted_receipt service c.input c.member ≡ ok e)

  keep-done :
      {o : Outcome Bytes} (mb : String × Ballot) (rest : List (String × Ballot)) (r : Bytes)
      → o ≡ done r
      → keep o mb rest ≡ mb ∷ rest
  keep-done mb rest r e = rw e refl

  keep-threw :
      {o : Outcome Bytes} (mb : String × Ballot) (rest : List (String × Ballot)) (r : PollError)
      → o ≡ threw r
      → keep o mb rest ≡ rest
  keep-threw mb rest r e = rw e refl

  accepted-done :
      (p : Poll C) (c : Call R) (cs : List (Call R)) (r : Bytes)
      → (step p c).1 ≡ done r
      → accepted p (c ∷ cs) ≡ (c.member, c.ballot) ∷ accepted (step p c).0 cs
  unfolding accepted
  accepted-done p c cs r e = keep-done (c.member, c.ballot) (accepted (step p c).0 cs) r e

  accepted-threw :
      (p : Poll C) (c : Call R) (cs : List (Call R)) (x : PollError)
      → (step p c).1 ≡ threw x
      → accepted p (c ∷ cs) ≡ accepted (step p c).0 cs
  unfolding accepted
  accepted-threw p c cs x e = keep-threw (c.member, c.ballot) (accepted (step p c).0 cs) x e

  step-IsWellSized : (p : Poll C) (c : Call R) → IsWellSized p → IsWellSized (step p c).0
  unfolding step
  step-IsWellSized p c well = cast-IsWellSized key service c.rand c.input p c.ballot c.member well

  pub step-voters :
      (p : Poll C) (c : Call R) (r : Bytes)
      → (step p c).1 ≡ done r
      → voters (step p c).0.receipts ≡ voters p.receipts ++ c.member ∷ []
  unfolding step member_voted
  step-voters p c r e =
      let (stored, fresh) = cast-stores key service c.rand c.input p c.ballot c.member r e in
      ap voters stored ∙ insert-fresh c.member r p.receipts fresh

  pub step-fresh :
      (p : Poll C) (c : Call R) (r : Bytes)
      → (step p c).1 ≡ done r
      → elem c.member (voters p.receipts) ≡ false
  unfolding step member_voted
  step-fresh p c r e =
      elem-voters c.member p.receipts
        (cast-stores key service c.rand c.input p c.ballot c.member r e).1

  step-tally :
      IsHomomorphic key
      → (p : Poll C) (c : Call R) (r : Bytes) (k : ℕ) → IsWellSized p
      → (step p c).1 ≡ done r
      → tally key (step p c).0.votes k ≡ (tally key p.votes k + amount c.ballot k) % key.modulus
  unfolding step
  step-tally law p c r k well e =
      cast-tally key service c.rand c.input law p c.ballot c.member r well e k

  pub step-threw :
      (p : Poll C) (c : Call R) (x : PollError)
      → HasReceipt c
      → (step p c).1 ≡ threw x
      → (step p c).0 ≡ p
  unfolding step
  step-threw p c x (sent, works) e =
      cast-throws key service c.rand c.input p c.ballot c.member sent x works e

  -- The voters are, in order, those of the poll and the members of the ballots that were accepted.
  pub run-voters :
      (p : Poll C) (cs : List (Call R))
      → All HasReceipt cs
      → voters (run p cs).receipts ≡ voters p.receipts ++ members (accepted p cs)
  unfolding run accepted
  run-voters p [] works = sym (append-nil (voters p.receipts))
  run-voters p (c ∷ cs) (works, later) = elim (Outcome-cases (step p c).1) [
    | inl (r, e) ↦
        run-voters (step p c).0 cs later
        ∙ ap (λ (vs : List String). vs ++ members (accepted (step p c).0 cs)) (step-voters p c r e)
        ∙ append_assoc (voters p.receipts) (c.member ∷ []) (members (accepted (step p c).0 cs))
        ∙ ap (λ (l : List (String × Ballot)). voters p.receipts ++ members l)
            (sym (accepted-done p c cs r e))
    | inr (x, e) ↦
        run-voters (step p c).0 cs later
        ∙ ap (λ (q : Poll C). voters q.receipts ++ members (accepted (step p c).0 cs))
            (step-threw p c x works e)
        ∙ ap (λ (l : List (String × Ballot)). voters p.receipts ++ members l)
            (sym (accepted-threw p c cs x e))
  ]

  pub run-tally :
      IsHomomorphic key
      → (p : Poll C) (cs : List (Call R)) → All HasReceipt cs
      → (k : ℕ) → IsWellSized p
      → tally key (run p cs).votes k
        ≡ (tally key p.votes k + total_amount (accepted p cs) k) % key.modulus
  unfolding run accepted
  run-tally law p [] works k well = tally_unchanged key law p.votes k
  run-tally law p (c ∷ cs) (works, all) k well =
      let later = run-tally law (step p c).0 cs all k (step-IsWellSized p c well) in
      elim (Outcome-cases (step p c).1) [
        | inl (r, e) ↦
            add_up key.modulus (tally key p.votes k) (amount c.ballot k)
              (total_amount (accepted (step p c).0 cs) k) (tally key (step p c).0.votes k) _
              (step-tally law p c r k well e) later
            ∙ ap
                (λ (l : List (String × Ballot)).
                  (tally key p.votes k + total_amount l k) % key.modulus)
                (sym (accepted-done p c cs r e))
        | inr (x, e) ↦
            later
            ∙ ap
                (λ (q : Poll C).
                  (tally key q.votes k + total_amount (accepted (step p c).0 cs) k) % key.modulus)
                (step-threw p c x works e)
            ∙ ap
                (λ (l : List (String × Ballot)).
                  (tally key p.votes k + total_amount l k) % key.modulus)
                (sym (accepted-threw p c cs x e))
      ]
