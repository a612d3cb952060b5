-- ===== src/Poll/Loops.antt =====
-- What each of the voting loops adds to each tally.
use node_ecies_lib.Prelude.{
  ℕ, zero, suc, ◌+◌, ◌-◌, ◌%◌, ◌<◌, ◌≤◌, ◌≡◌, refl, ap, ◌∙◌, false, none, List, [], ◌∷◌, length,
  ◌==◌, arith, if◌then◌else◌,
}
use node_ecies_lib.Prelude.Int.{ℤ, pos, negsuc, pos_part}
use native.Mathlib.Nat.{mod-add-mod, add_assoc}
use node_ecies_lib.Paillier.{Paillier, IsHomomorphic}
use node_ecies_lib.Poll.Ballots.{
  add_at, vote_loop, rank_loop, approve_loop, check_choices, seen_before,
}
use node_ecies_lib.Poll.Tallies.{
  names, borda, tally, length-add_at, tally-add_at, tally_unchanged, check_choices-seen,
  borda-names,
}

-- The amounts of one step and of the steps behind it add up.
pub add_up :
    (n t a b mid out : ℕ) → mid ≡ (t + a) % n → out ≡ (mid + b) % n → out ≡ (t + (a + b)) % n
add_up n t a b mid out h k =
    k
    ∙ ap (λ (x : ℕ). (x + b) % n) h
    ∙ mod-add-mod (t + a) n b
    ∙ ap (λ (x : ℕ). x % n) (add_assoc t a b)

-- The loop of `vote` over the indices from `i` to `i + left`.
abbrev loop_amount : ℕ → ℕ → ℕ → ℕ → ℕ
loop_amount choice zero i k = 0
loop_amount choice (suc left) i k =
    (if i == k then (if i == choice then 1 else 0) else 0) + loop_amount choice left (suc i) k

loop_amount-above : (choice left i k : ℕ) → choice < i → loop_amount choice left i k ≡ 0
loop_amount-above choice zero i k h = refl
loop_amount-above choice (suc left) i k h = ground (arith, loop_amount-above choice left (suc i) k)

loop_amount_lem :
    (choice left i k : ℕ)
    → i ≤ choice
    → choice < i + left
    → loop_amount choice left i k ≡ (if choice == k then 1 else 0)
loop_amount_lem choice zero i k h g = absurd (omega arith)
loop_amount_lem choice (suc left) i k h g =
    ground (arith, loop_amount-above choice left (suc i) k, loop_amount_lem choice left (suc i) k)

-- What the check of the first choice leaves.
check_step :
    (n : ℕ) (z : ℤ) (zs : List ℤ) (seen : List ℕ)
    → check_choices n (z ∷ zs) seen ≡ none
    → (pos_part z < n) × (check_choices n zs (pos_part z ∷ seen) ≡ none)
unfolding check_choices
check_step n (pos j) zs seen e = ground arith
check_step n (negsuc j) zs seen e = ground arith

names_step :
    (n : ℕ) (z : ℤ) (zs : List ℤ) (seen : List ℕ)
    → check_choices n (z ∷ zs) seen ≡ none
    → names zs (pos_part z) ≡ false
names_step n z zs seen e =
    check_choices-seen n zs (pos_part z ∷ seen) (pos_part z) (check_step n z zs seen e).1
      (unfold seen_before in ground arith)

borda_step :
    (max_points i : ℕ) (z : ℤ) (zs : List ℤ) (k : ℕ)
    → max_points ≡ i + length (z ∷ zs)
    → names zs (pos_part z) ≡ false
    → (if pos_part z == k then max_points - i else 0) + borda zs k ≡ borda (z ∷ zs) k
borda_step max_points i z zs k m fresh = ground (arith, borda-names zs k)

approval_step :
    (z : ℤ) (zs : List ℤ) (k : ℕ)
    → names zs (pos_part z) ≡ false
    → (if pos_part z == k then 1 else 0) + (if names zs k then 1 else 0)
      ≡ (if names (z ∷ zs) k then 1 else 0)
approval_step z zs k fresh = ground arith

module _ {C R : Type 0} (key : Paillier C R) (law : IsHomomorphic key) (rand : ℕ → R) where
  vote_loop-tally :
      (choice left i : ℕ) (votes : List C) (k : ℕ)
      → i + left ≤ length votes
      → tally key (vote_loop key rand choice left i votes) k
        ≡ (tally key votes k + loop_amount choice left i k) % key.modulus
  unfolding vote_loop
  vote_loop-tally choice zero i votes k h = tally_unchanged key law votes k
  vote_loop-tally choice (suc left) i votes k h =
      let amount : ℕ = if i == choice then 1 else 0 in
      let mid = add_at key (rand i) votes i amount in
      add_up key.modulus (tally key votes k) (if i == k then amount else 0)
        (loop_amount choice left (suc i) k) (tally key mid k) _
        (tally-add_at key law (rand i) votes i amount k (omega arith))
        (vote_loop-tally choice left (suc i) mid k
          (omega (arith, length-add_at key (rand i) votes i amount)))

  -- The votes for one choice: 1 for it and nothing for the others.
  pub tally-vote_loop :
      (choice : ℕ) (votes : List C) (k : ℕ)
      → choice < length votes
      → tally key (vote_loop key rand choice (length votes) 0 votes) k
        ≡ (tally key votes k + (if choice == k then 1 else 0)) % key.modulus
  tally-vote_loop choice votes k h =
      vote_loop-tally choice (length votes) 0 votes k (omega arith)
      ∙ ap (λ (x : ℕ). (tally key votes k + x) % key.modulus)
          (loop_amount_lem choice (length votes) 0 k (omega arith) (omega arith))

  -- The ranking, of which `i` choices are counted: each choice adds its Borda count.
  pub tally-rank_loop :
      (max_points : ℕ) (zs : List ℤ) (i : ℕ) (votes : List C) (seen : List ℕ) (k : ℕ)
      → max_points ≡ i + length zs
      → check_choices (length votes) zs seen ≡ none
      → tally key (rank_loop key rand max_points zs i votes) k
        ≡ (tally key votes k + borda zs k) % key.modulus
  unfolding rank_loop
  tally-rank_loop max_points [] i votes seen k m e = tally_unchanged key law votes k
  tally-rank_loop max_points (z ∷ zs) i votes seen k m e =
      let j = pos_part z in
      let mid = add_at key (rand i) votes j (max_points - i) in
      let same = length-add_at key (rand i) votes j (max_points - i) in
      let checked = check_step (length votes) z zs seen e in
      add_up key.modulus (tally key votes k) (if j == k then max_points - i else 0) (borda zs k)
        (tally key mid k) _ (tally-add_at key law (rand i) votes j (max_points - i) k checked.0)
        (tally-rank_loop max_points zs (suc i) mid (j ∷ seen) k (omega arith) (rw same checked.1))
      ∙ ap (λ (x : ℕ). (tally key votes k + x) % key.modulus)
          (borda_step max_points i z zs k m (names_step (length votes) z zs seen e))

  pub tally-approve_loop :
      (zs : List ℤ) (i : ℕ) (votes : List C) (seen : List ℕ) (k : ℕ)
      → check_choices (length votes) zs seen ≡ none
      → tally key (approve_loop key rand zs i votes) k
        ≡ (tally key votes k + (if names zs k then 1 else 0)) % key.modulus
  unfolding approve_loop
  tally-approve_loop [] i votes seen k e = tally_unchanged key law votes k
  tally-approve_loop (z ∷ zs) i votes seen k e =
      let j = pos_part z in
      let mid = add_at key (rand i) votes j 1 in
      let same = length-add_at key (rand i) votes j 1 in
      let checked = check_step (length votes) z zs seen e in
      add_up key.modulus (tally key votes k) (if j == k then 1 else 0) (if names zs k then 1 else 0)
        (tally key mid k) _ (tally-add_at key law (rand i) votes j 1 k checked.0)
        (tally-approve_loop zs (suc i) mid (j ∷ seen) k (rw same checked.1))
      ∙ ap (λ (x : ℕ). (tally key votes k + x) % key.modulus)
          (approval_step z zs k (names_step (length votes) z zs seen e))
