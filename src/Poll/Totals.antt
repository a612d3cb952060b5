-- ===== src/Poll/Totals.antt =====
-- The total of the votes, and the percentages.
use node_ecies_lib.Prelude.{
  ℕ, zero, suc, ◌+◌, ◌*◌, ◌%◌, ◌≤◌, ◌≡◌, refl, sym, ap, ◌∙◌, List, [], ◌∷◌, map, arith,
}
use native.Mathlib.Nat.{mod-add-mod, mod-eq_of_lt, add_assoc, add-zero}
use node_ecies_lib.Paillier.{Paillier, IsHomomorphic}
use node_ecies_lib.Poll.State.{Poll}
use node_ecies_lib.Poll.Results.{
  total, percentage, decrypt_tallies, get_results, add_votes, get_total_votes,
}

percentage-le : (n t : ℕ) → percentage n t * n ≤ t * 10000
unfolding percentage
percentage-le n t = ground arith

total-percentage : (n : ℕ) (ts : List ℕ) → total (map (percentage n) ts) * n ≤ total ts * 10000
unfolding total
total-percentage n [] = omega arith
total-percentage n (t ∷ ts) = grind (arith, percentage-le n t, total-percentage n ts)

total-percentage_none : (ts : List ℕ) → total (map (percentage 0) ts) ≡ 0
unfolding total percentage
total-percentage_none [] = refl
total-percentage_none (t ∷ ts) = ground (arith, total-percentage_none ts)

total-percentage_all : (n : ℕ) (ts : List ℕ) → total ts ≡ n → total (map (percentage n) ts) ≤ 10000
total-percentage_all zero ts e = omega (arith, total-percentage_none ts)
total-percentage_all (suc n) ts e = grind (arith, total-percentage (suc n) ts)

module _ {C R : Type 0} (key : Paillier C R) where
  -- The percentages of the results, which are rounded down, add up to no more than 100.
  pub get_results-percentages : (p : Poll C) → total (get_results key p).percentages ≤ 10000
  unfolding get_results
  get_results-percentages p =
      total-percentage_all (total (decrypt_tallies key p)) (decrypt_tallies key p) refl

  module _ (law : IsHomomorphic key) where
    add_votes-total :
        (sum : C) (votes : List C)
        → key.decrypt (add_votes key sum votes)
          ≡ (key.decrypt sum + total (map key.decrypt votes)) % key.modulus
    unfolding add_votes total
    add_votes-total sum [] = sym (
        ap (λ (x : ℕ). x % key.modulus) (add-zero (key.decrypt sum))
        ∙ mod-eq_of_lt (law.decrypt-lt sum))
    add_votes-total sum (v ∷ votes) =
        add_votes-total (key.addition sum v) votes
        ∙ ap (λ (x : ℕ). (x + total (map key.decrypt votes)) % key.modulus)
            (law.decrypt-addition sum v)
        ∙ mod-add-mod (key.decrypt sum + key.decrypt v) key.modulus (total (map key.decrypt votes))
        ∙ ap (λ (x : ℕ). x % key.modulus)
            (add_assoc (key.decrypt sum) (key.decrypt v) (total (map key.decrypt votes)))

    -- The total that is added up under encryption is the total of the results, modulo n.
    pub get_total_votes-get_results :
        (r : R) (p : Poll C)
        → get_total_votes key r p ≡ (get_results key p).total_votes % key.modulus
    unfolding get_total_votes get_results decrypt_tallies
    get_total_votes-get_results r p =
        add_votes-total (key.encrypt r 0) p.votes
        ∙ ap (λ (x : ℕ). (x + total (map key.decrypt p.votes)) % key.modulus)
            (law.decrypt-encrypt r 0 ∙ mod-eq_of_lt law.modulus_pos)
        ∙ ap (λ (x : ℕ). x % key.modulus) {x = 0 + total (map key.decrypt p.votes)} (omega arith)
