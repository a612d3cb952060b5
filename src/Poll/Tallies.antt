-- ===== src/Poll/Tallies.antt =====
-- The loops that add a ballot to the encrypted votes, seen through decryption.
use node_ecies_lib.Prelude.{
  ℕ, zero, suc, ◌+◌, ◌%◌, ◌<◌, ◌≡◌, refl, sym, ap, ◌∙◌, Bool, true, false, none, some, Option-cases,
  inl, inr, List, [], ◌∷◌, length, get_elem?, length-set, ◌==◌, arith, if◌then◌else◌,
}
use node_ecies_lib.Prelude.Int.{ℤ, pos_part}
use native.Mathlib.Nat.{add-mod-mod, mod-eq_of_lt, add-zero}
use node_ecies_lib.Paillier.{Paillier, IsHomomorphic}
use node_ecies_lib.Poll.Ballots.{add_at, check_choices, seen_before}

-- Is `k` one of the listed choices?
abbrev pub names : List ℤ → ℕ → Bool
names [] k = false
names (z ∷ zs) k = if pos_part z == k then true else names zs k

-- The Borda count of a ranking: a choice has as many points as it and the choices ranked behind it
-- are, and none if it is not ranked.
abbrev pub borda : List ℤ → ℕ → ℕ
borda [] k = 0
borda (z ∷ zs) k = if pos_part z == k then length (z ∷ zs) else borda zs k

pub check_choices-seen :
    (n : ℕ) (zs : List ℤ) (seen : List ℕ) (k : ℕ)
    → check_choices n zs seen ≡ none
    → seen_before k seen ≡ true
    → names zs k ≡ false
unfolding check_choices
check_choices-seen n [] seen k e s = refl
check_choices-seen n (z ∷ zs) seen k e s =
    ground (arith, check_choices-seen n zs (pos_part z ∷ seen) k)

pub borda-names : (zs : List ℤ) (k : ℕ) → names zs k ≡ false → borda zs k ≡ 0
borda-names [] k e = refl
borda-names (z ∷ zs) k e = ground (arith, borda-names zs k)

pick_ne : (k amount : ℕ) → (if 0 == suc k then amount else 0) ≡ 0
pick_ne k amount = ground arith

pick_zero : (j amount : ℕ) → (if suc j == 0 then amount else 0) ≡ 0
pick_zero j amount = ground arith

pick_suc :
    (j k amount : ℕ) → (if suc j == suc k then amount else 0) ≡ (if j == k then amount else 0)
pick_suc j k amount = ground arith

module _ {C R : Type 0} (key : Paillier C R) where
  -- getTally(i), or 0 where there is no such choice.
  unfoldable pub tally : List C → ℕ → ℕ
  tally votes i = elim (get_elem? votes i) [ none ↦ 0 | some v ↦ key.decrypt v ]

  pub length-add_at :
      (r : R) (votes : List C) (i amount : ℕ) → length (add_at key r votes i amount) ≡ length votes
  unfolding add_at
  length-add_at r votes i amount =
      let sum = λ (v : C). key.addition v (key.encrypt r amount) in
      elim (Option-cases (get_elem? votes i)) [
        | inl e ↦ rw (e, add_at) refl
        | inr (v, e) ↦ rw (e, add_at) (length-set votes i (sum v))
      ]

  add_at-suc :
      (r : R) (v : C) (votes : List C) (j amount : ℕ)
      → add_at key r (v ∷ votes) (suc j) amount ≡ v ∷ add_at key r votes j amount
  unfolding add_at
  add_at-suc r v votes j amount = elim (Option-cases (get_elem? votes j)) [
    | inl e ↦ rw (e, add_at) refl
    | inr (w, e) ↦ rw (e, add_at) refl
  ]

  tally-zero : (v : C) (votes : List C) → tally (v ∷ votes) 0 ≡ key.decrypt v
  unfolding tally
  tally-zero v votes = refl

  tally-suc : (v : C) (votes : List C) (k : ℕ) → tally (v ∷ votes) (suc k) ≡ tally votes k
  unfolding tally
  tally-suc v votes k = refl

  module _ (law : IsHomomorphic key) where
    tally-lt : (votes : List C) (i : ℕ) → tally votes i < key.modulus
    unfolding tally
    tally-lt votes i = elim (Option-cases (get_elem? votes i)) [
      | inl e ↦ rw (e, tally) law.modulus_pos
      | inr (v, e) ↦ rw (e, tally) (law.decrypt-lt v)
    ]

    unchanged : (t : ℕ) → t < key.modulus → t ≡ (t + 0) % key.modulus
    unchanged t h = sym (ap (λ (x : ℕ). x % key.modulus) (add-zero t) ∙ mod-eq_of_lt h)

    pub tally_unchanged :
        (votes : List C) (k : ℕ) → tally votes k ≡ (tally votes k + 0) % key.modulus
    tally_unchanged votes k = unchanged (tally votes k) (tally-lt votes k)

    sum_law :
        (v : C) (r : R) (amount : ℕ)
        → key.decrypt (key.addition v (key.encrypt r amount))
          ≡ (key.decrypt v + amount) % key.modulus
    sum_law v r amount =
        law.decrypt-addition v (key.encrypt r amount)
        ∙ ap (λ (x : ℕ). (key.decrypt v + x) % key.modulus) (law.decrypt-encrypt r amount)
        ∙ add-mod-mod (key.decrypt v) amount key.modulus

    -- One homomorphic addition adds to its own tally and keeps the others.
    pub tally-add_at :
        (r : R) (votes : List C) (j amount k : ℕ)
        → j < length votes
        → tally (add_at key r votes j amount) k
          ≡ (tally votes k + (if j == k then amount else 0)) % key.modulus
    tally-add_at r [] j amount k h = absurd (omega arith)
    tally-add_at r (v ∷ votes) zero amount zero h = unfold add_at tally in sum_law v r amount
    tally-add_at r (v ∷ votes) zero amount (suc k) h =
        rw (pick_ne k amount) (unfold add_at tally in unchanged (tally votes k) (tally-lt votes k))
    tally-add_at r (v ∷ votes) (suc j) amount zero h =
        rw (add_at-suc, tally-zero, tally-zero, pick_zero j amount)
          (unchanged (key.decrypt v) (law.decrypt-lt v))
    tally-add_at r (v ∷ votes) (suc j) amount (suc k) h =
        rw (add_at-suc, tally-suc, tally-suc)
          (tally-add_at r votes j amount k (omega arith)
            ∙ ap (λ (x : ℕ). (tally votes k + x) % key.modulus) (sym (pick_suc j k amount)))
