-- ===== src/Tests/Votes.antt =====
-- Votes on concrete inputs.
use qwid_node.Types.{bytes_discrete}
use qwid_node.Base.{List, [], arith, false, refl, true, ℕ, ℕ_discrete, ◌*◌, ◌<◌, ◌↔◌, ◌∷◌, ◌≡◌, ◌≤◌}
use qwid_node.Base.Int.{pos}
use qwid_node.Base.Table.{IsTable, Table, get}
use qwid_node.Voting.{Votes, VotingState, verify_encryption_for_replacing}
use qwid_node.Voting.Tally.{IsFunded, backing, total_weight}
use qwid_node.Voting.Thresholds.{
  replacements_exclusive, verify_encryption_for_replacing_iff, votes_for,
}
use qwid_node.Voting.Saves.{Ballot, IsKeptOrNewer, IsNumbered, save_all, save_all_lem}
use qwid_node.Delegated.{get_delegated_account_address}

abbrev vote : ℕ → Votes
vote n = record { values = n ∷ []; height = pos 100; staked = pos 40 }

-- Two votes for the scheme 1 and one for the scheme 2, of 40 each.
abbrev three_votes : Table ℕ Votes
three_votes = (1, vote 1) ∷ (2, vote 1) ∷ (3, vote 2) ∷ []

abbrev voted : VotingState
voted = record { votes_encryption1 = three_votes; votes_encryption2 = []; after_reset = false }

voted-IsFunded : IsFunded (votes_for true voted)
unfolding total_weight
voted-IsFunded = record {
  nonneg = (omega arith, (omega arith, (omega arith, tt)));
  bounded = omega arith;
}

three_votes-IsTable : IsTable ℕ_discrete three_votes
unfolding get ℕ_discrete
three_votes-IsTable = (refl, (refl, (refl, tt)))

verify_encryption_for_replacing_iff_example :
    let b = backing (pos 110) (1 ∷ []) (votes_for true voted) in
    ((verify_encryption_for_replacing (pos 110) (pos 120) true (1 ∷ []) voted).0 ≡ true)
    ↔ ((0 < b) × (0 < 120) × (2 * 120 ≤ 3 * b))
verify_encryption_for_replacing_iff_example =
    verify_encryption_for_replacing_iff (pos 110) true voted voted-IsFunded 120 (1 ∷ [])
      (omega arith)

replaced : (verify_encryption_for_replacing (pos 110) (pos 120) true (1 ∷ []) voted).0 ≡ true
unfolding verify_encryption_for_replacing bytes_discrete
replaced = refl

replacements_exclusive_example :
    ¬ ((verify_encryption_for_replacing (pos 110) (pos 120) true (2 ∷ []) voted).0 ≡ true)
replacements_exclusive_example =
    replacements_exclusive (pos 110) true voted voted-IsFunded 120 (1 ∷ []) (2 ∷ []) (omega arith)
      (unfold total_weight in (omega arith)) (λ e. ground arith) replaced

abbrev ballots : List Ballot
ballots =
    record {
      value = 2 ∷ [];
      height = pos 105;
      account = get_delegated_account_address (pos 1);
      staked = pos 40;
    }
    ∷ record {
      value = 2 ∷ [];
      height = pos 90;
      account = get_delegated_account_address (pos 2);
      staked = pos 40;
    }
    ∷ []

three_votes-IsNumbered : IsNumbered three_votes
three_votes-IsNumbered =
    (omega arith, omega arith, (omega arith, omega arith, (omega arith, omega arith, tt)))

save_all_lem_example :
    ((j : ℕ)
      → IsKeptOrNewer
          (get ℕ_discrete j three_votes)
          (get ℕ_discrete j (save_all ballots three_votes)))
    × IsTable ℕ_discrete (save_all ballots three_votes)
    × IsNumbered (save_all ballots three_votes)
save_all_lem_example = save_all_lem ballots three_votes three_votes-IsTable three_votes-IsNumbered
