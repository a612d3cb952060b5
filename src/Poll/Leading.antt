-- ===== src/Poll/Leading.antt =====
-- The leading choice, ties and totals.
use Prim.Native.String.{String}
use node_ecies_lib.Prelude.{
  ℕ, zero, suc, ◌+◌, ◌-◌, ◌<◌, ◌≤◌, ◌≡◌, ◌≢◌, ◌↔◌, subst, refl, sym, ◌∙◌, false, some, List, [],
  ◌∷◌, map, length, length-map, get_elem?, ltb, arith, if◌then◌else◌,
}
use native.Mathlib.Nat.{add-zero}
use node_ecies_lib.Paillier.{Paillier}
use node_ecies_lib.Poll.State.{Poll}
use node_ecies_lib.Poll.Cast.{IsWellSized}
use node_ecies_lib.Poll.Results.{
  value_at, lead_loop, leading_index, max_tally, count_equal, has_tie, decrypt_tallies, get_results,
  leading_choice,
}

get_elem?-lt :
    {A : Type 0} (xs : List A) (i : ℕ) → i < length xs → (x : A) × (get_elem? xs i ≡ some x)
get_elem?-lt [] i h = absurd (omega arith)
get_elem?-lt (x ∷ xs) zero h = (x, refl)
get_elem?-lt (x ∷ xs) (suc i) h = get_elem?-lt xs i (omega arith)

-- The index `best` is the first of the greatest of the first `n` tallies.
pub record IsFirstMax (ts : List ℕ) (n best : ℕ) : Type 0 where
  pub inside : best < n
  pub greatest : (j : ℕ) → j < n → value_at ts j ≤ value_at ts best
  pub first : (j : ℕ) → j < best → value_at ts j < value_at ts best

step_to :
    (ts : List ℕ) (i best : ℕ)
    → IsFirstMax ts i best
    → value_at ts best < value_at ts i
    → IsFirstMax ts (suc i) i
step_to ts i best b h = record {
  inside = omega arith;
  greatest = λ j l. ground (arith, b.greatest j);
  first = λ j l. ground (arith, b.greatest j);
}

step_past :
    (ts : List ℕ) (i best : ℕ)
    → IsFirstMax ts i best
    → value_at ts i ≤ value_at ts best
    → IsFirstMax ts (suc i) best
step_past ts i best b h = record {
  inside = omega (arith, b.inside);
  greatest = λ j l. ground (arith, b.greatest j);
  first = b.first;
}

lead_step :
    (ts : List ℕ) (i best : ℕ)
    → IsFirstMax ts i best
    → IsFirstMax ts (suc i) (if ltb (value_at ts best) (value_at ts i) then i else best)
lead_step ts i best b = ground (arith, step_to ts i best b, step_past ts i best b)

lead_loop-IsFirstMax :
    (ts : List ℕ) (left i best : ℕ)
    → IsFirstMax ts i best
    → IsFirstMax ts (i + left) (lead_loop ts left i best)
unfolding lead_loop
lead_loop-IsFirstMax ts zero i best b = rw (add-zero i) b
lead_loop-IsFirstMax ts (suc left) i best b =
    let next = if ltb (value_at ts best) (value_at ts i) then i else best in
    subst (λ n. IsFirstMax ts n (lead_loop ts left (suc i) next)) {x = suc i + left} (omega arith)
      (lead_loop-IsFirstMax ts left (suc i) next (lead_step ts i best b))

max_tally-ge : (best : ℕ) (ts : List ℕ) → best ≤ max_tally best ts
unfolding max_tally
max_tally-ge best [] = omega arith
max_tally-ge best (t ∷ ts) = ground (arith, max_tally-ge t ts, max_tally-ge best ts)

max_tally-bounds : (best : ℕ) (ts : List ℕ) (j : ℕ) → value_at ts j ≤ max_tally best ts
unfolding max_tally value_at
max_tally-bounds best [] j = omega arith
max_tally-bounds best (t ∷ ts) zero = ground (arith, max_tally-ge t ts, max_tally-ge best ts)
max_tally-bounds best (t ∷ ts) (suc j) = max_tally-bounds (if ltb best t then t else best) ts j

-- The greatest tally is one of them, or what the search starts from.
max_tally-least :
    (best m : ℕ) (ts : List ℕ)
    → best ≤ m
    → ((j : ℕ) → j < length ts → value_at ts j ≤ m)
    → max_tally best ts ≤ m
unfolding max_tally value_at
max_tally-least best m [] h all = h
max_tally-least best m (t ∷ ts) h all =
    max_tally-least (if ltb best t then t else best) m ts (ground (arith, all 0))
      (λ j l. all (suc j) (omega arith))

count_equal_once :
    (m : ℕ) (ts : List ℕ) (i : ℕ) → i < length ts → value_at ts i ≡ m → 0 < count_equal m ts
unfolding count_equal value_at
count_equal_once m [] i h e = absurd (omega arith)
count_equal_once m (t ∷ ts) zero h e = ground arith
count_equal_once m (t ∷ ts) (suc i) h e = ground (arith, count_equal_once m ts i (omega arith) e)

count_equal_twice :
    (m : ℕ) (ts : List ℕ) (i j : ℕ)
    → i < j
    → j < length ts
    → value_at ts i ≡ m
    → value_at ts j ≡ m
    → 1 < count_equal m ts
unfolding count_equal value_at
count_equal_twice m [] i j l h e g = absurd (omega arith)
count_equal_twice m (t ∷ ts) i zero l h e g = absurd (omega arith)
count_equal_twice m (t ∷ ts) zero (suc j) l h e g =
    ground (arith, count_equal_once m ts j (omega arith) g)
count_equal_twice m (t ∷ ts) (suc i) (suc j) l h e g =
    ground (arith, count_equal_twice m ts i j (omega arith) (omega arith) e g)

-- Conversely, two equal tallies are all but the one.
count_equal_none :
    (m : ℕ) (ts : List ℕ) → ((j : ℕ) → j < length ts → value_at ts j < m) → count_equal m ts ≡ 0
unfolding count_equal value_at
count_equal_none m [] all = refl
count_equal_none m (t ∷ ts) all =
    ground (arith, all 0, count_equal_none m ts (λ j l. all (suc j) (omega arith)))

count_equal_unique :
    (m : ℕ) (ts : List ℕ) (i : ℕ)
    → ((j : ℕ) → j < length ts → j ≢ i → value_at ts j < m)
    → count_equal m ts ≤ 1
unfolding count_equal value_at
count_equal_unique m [] i all = omega arith
count_equal_unique m (t ∷ ts) zero all =
    ground (arith, count_equal_none m ts (λ j l. all (suc j) (omega arith) (omega arith)))
count_equal_unique m (t ∷ ts) (suc i) all = ground (
  arith,
  all 0 (omega arith) (omega arith),
  count_equal_unique m ts i (λ j l n. all (suc j) (omega arith) (omega arith)),
)

-- Of at least one tally, the leading index is the first of the greatest.
pub leading_index-IsFirstMax :
    (ts : List ℕ) → 0 < length ts → IsFirstMax ts (length ts) (leading_index ts)
unfolding leading_index
leading_index-IsFirstMax ts h =
    subst (λ n. IsFirstMax ts n (lead_loop ts (length ts - 1) 1 0)) (omega arith)
      (lead_loop-IsFirstMax ts (length ts - 1) 1 0 (record {
        inside = omega arith;
        greatest = λ j l. ground arith;
        first = λ j l. absurd (omega arith);
      }))

max_tally-leading : (ts : List ℕ) → 0 < length ts → max_tally 0 ts ≡ value_at ts (leading_index ts)
max_tally-leading ts h =
    let lead = leading_index-IsFirstMax ts h in
    omega (
      arith,
      max_tally-bounds 0 ts (leading_index ts),
      max_tally-least 0 (value_at ts (leading_index ts)) ts (omega arith) lead.greatest,
    )

-- Of at least one tally, there is no tie exactly when every other tally is below the leading one.
pub has_tie-leading :
    (ts : List ℕ)
    → 0 < length ts
    → (has_tie ts ≡ false) ↔ (
        (j : ℕ)
        → j < length ts
        → j ≢ leading_index ts
        → value_at ts j < value_at ts (leading_index ts))
unfolding has_tie
has_tie-leading ts h =
    let m = max_tally-leading ts h in
    let lead = leading_index-IsFirstMax ts h in
    (
      λ e j l n. ground (
        arith,
        lead.greatest j l,
        lead.inside,
        count_equal_twice (max_tally 0 ts) ts j (leading_index ts),
        count_equal_twice (max_tally 0 ts) ts (leading_index ts) j,
      ),
      λ all. ground (
        arith,
        count_equal_unique (max_tally 0 ts) ts (leading_index ts) (λ j l n. rw m (all j l n)),
      ),
    )

module _ {C R : Type 0} (key : Paillier C R) where
  -- Of a poll with choices and as many votes, the winner of the results is the first choice with
  -- the greatest tally, and the winner's name is the choice at that index.
  pub get_results-winner :
      (p : Poll C)
      → IsWellSized p
      → 0 < length p.choices
      → IsFirstMax (get_results key p).tallies (length p.choices) (get_results key p).winner_index
        × ((x : String) × (get_elem? p.choices (get_results key p).winner_index ≡ some x)
            × ((get_results key p).winner_name ≡ some x))
  unfolding get_results decrypt_tallies leading_choice
  get_results-winner p well h =
      let ts = map key.decrypt p.votes in
      let same : length ts ≡ length p.choices = length-map p.votes key.decrypt ∙ sym well in
      let lead = leading_index-IsFirstMax ts (omega arith) in
      let (x, e) = get_elem?-lt p.choices (leading_index ts) (omega (arith, lead.inside)) in
      (subst (λ n. IsFirstMax ts n (leading_index ts)) same lead, (x, e, e))
