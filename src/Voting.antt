-- ===== src/Voting.antt =====
-- Votes on the signature schemes: voting/votingEncryptionSchemes.go. The two maps of votes are
-- tables keyed by the uint8 number of a delegated account, in the order in which a loop ranges over
-- them; locks and log output are not modelled.
pub mod Tally
pub mod Thresholds
pub mod Saves
pub mod Pruned
use qwid_node.Base.{
  Bool, List, Option, Result, [], err, false, if◌then◌else◌, ite, length, none, not, ok, some, suc,
  true, zero, ℕ, ℕ_discrete, ◌&&◌, ◌++◌, ◌+◌, ◌==◌, ◌>>=◌, ◌||◌, ◌∷◌,
}
use qwid_node.Base.Int.{leb_ℤ, ltb_ℤ, pos, pos_part, ℤ}
use qwid_node.Base.Int64.{add64, mul64}
use qwid_node.Base.Table.{Table, delete, get, put, retain}
use qwid_node.Types.{Address, bytes_discrete}
use qwid_node.Wire.{bytes_to_len_and_bytes, get_byte_int64}
use qwid_node.Delegated.{get_id_from_delegated_account_address}

pub record Votes : Type 0 where
  pub values : List ℕ
  pub height : ℤ
  pub staked : ℤ

pub record VotingState : Type 0 where
  pub votes_encryption1 : Table ℕ Votes
  pub votes_encryption2 : Table ℕ Votes
  pub after_reset : Bool

pub data VotingError : Type 0 where
  invalid_account invalid_height : VotingError

abbrev pub voting_height_distance : ℤ
voting_height_distance = pos 60

-- `!exists || po.Height < height`
abbrev pub is_newer : Option Votes → ℤ → Bool
is_newer none height = true
is_newer (some po) height = ltb_ℤ po.height height

-- `SaveVotesEncryption1` and `SaveVotesEncryption2`, on the map that each of them writes.
unfoldable pub save_votes :
    List ℕ → ℤ → Address → ℤ → Table ℕ Votes → Result VotingError (Table ℕ Votes)
unfolding get_id_from_delegated_account_address get put
save_votes value height delegated_account staked m =
    let id = get_id_from_delegated_account_address delegated_account in
    if length value == 0
    then ok m
    else if ltb_ℤ id (pos 1) || leb_ℤ (pos 256) id
    then err invalid_account
    else if is_newer (get ℕ_discrete (pos_part id) m) height
    then ok (
        put ℕ_discrete (pos_part id) (record { values = value; height = height; staked = staked })
          m)
    else err invalid_height

unfoldable pub save_votes_encryption1 :
    List ℕ → ℤ → Address → ℤ → VotingState → Result VotingError VotingState
unfolding save_votes
save_votes_encryption1 value height delegated_account staked s = do
  m ← save_votes value height delegated_account staked s.votes_encryption1
  ok (record s { votes_encryption1 = m })

unfoldable pub save_votes_encryption2 :
    List ℕ → ℤ → Address → ℤ → VotingState → Result VotingError VotingState
unfolding save_votes
save_votes_encryption2 value height delegated_account staked s = do
  m ← save_votes value height delegated_account staked s.votes_encryption2
  ok (record s { votes_encryption2 = m })

-- `for i := 0; i < 256; i++ { delete(m, uint8(i)) }`, with the rounds that are left.
unfoldable pub delete_from : ℕ → ℕ → Table ℕ Votes → Table ℕ Votes
unfolding delete
delete_from zero i m = m
delete_from (suc rounds) i m = delete_from rounds (i + 1) (delete ℕ_discrete i m)

unfoldable pub reset_last_voting : VotingState → VotingState
unfolding delete_from
reset_last_voting s = record s {
  votes_encryption1 = delete_from 256 0 s.votes_encryption1;
  votes_encryption2 = delete_from 256 0 s.votes_encryption2;
  after_reset = true;
}

-- `height <= po.Height+common.VotingHeightDistance && len(po.Values) > 0`
unfoldable pub is_live : ℤ → Votes → Bool
unfolding add64
is_live height po =
    leb_ℤ height (add64 po.height voting_height_distance) && not (length po.values == 0)

-- `for _, i := range toRemove { delete(m, i) }`
unfoldable pub delete_all : List ℕ → Table ℕ Votes → Table ℕ Votes
unfolding delete
delete_all [] m = m
delete_all (i ∷ is) m = delete_all is (delete ℕ_discrete i m)

pub record Generated : Type 0 where
  pub value_data : List ℕ
  pub values : List (List ℕ)
  pub staked : ℤ
  pub to_remove : List ℕ

unfoldable pub vote_bytes : ℕ → Votes → List ℕ
unfolding get_byte_int64 bytes_to_len_and_bytes
vote_bytes i po = i ∷ (get_byte_int64 po.height ++ bytes_to_len_and_bytes po.values)

-- The loop of `GenerateEncryption1Data` and `GenerateEncryption2Data`.
unfoldable pub generate_loop : ℤ → Table ℕ Votes → Generated → Generated
unfolding is_live vote_bytes add64
generate_loop height [] g = g
generate_loop height ((i, po) ∷ m) g = generate_loop height m (
    if is_live height po
    then record g {
      value_data = g.value_data ++ vote_bytes i po;
      values = g.values ++ po.values ∷ [];
      staked = add64 g.staked po.staked;
    }
    else record g { to_remove = g.to_remove ++ i ∷ [] })

abbrev pub nothing_generated : Generated
nothing_generated = record { value_data = []; values = []; staked = pos 0; to_remove = [] }

unfoldable pub generate_data : ℤ → Table ℕ Votes → Generated × Table ℕ Votes
unfolding generate_loop delete_all
generate_data height m =
    let g = generate_loop height m nothing_generated in (g, delete_all g.to_remove m)

unfoldable pub generate_encryption1_data : ℤ → VotingState → Generated × VotingState
unfolding generate_data
generate_encryption1_data height s =
    let (g, m) = generate_data height s.votes_encryption1 in (g, record s { votes_encryption1 = m })

unfoldable pub generate_encryption2_data : ℤ → VotingState → Generated × VotingState
unfolding generate_data
generate_encryption2_data height s =
    let (g, m) = generate_data height s.votes_encryption2 in (g, record s { votes_encryption2 = m })

abbrev pub same_bytes : List ℕ → List ℕ → Bool
same_bytes a b = ite (bytes_discrete a b) true false

-- The loop of `stakedForValue`: the stake so far, and the expired votes so far.
unfoldable pub staked_loop : ℤ → List ℕ → Table ℕ Votes → ℤ × List ℕ → ℤ × List ℕ
unfolding is_live add64
staked_loop height want [] acc = acc
staked_loop height want ((i, po) ∷ m) (staked, to_remove) = staked_loop height want m (
    if is_live height po
    then (if same_bytes po.values want then add64 staked po.staked else staked, to_remove)
    else (staked, to_remove ++ i ∷ []))

unfoldable pub staked_for_value : Table ℕ Votes → ℤ → List ℕ → ℤ × Table ℕ Votes
unfolding staked_loop delete_all
staked_for_value votes height want =
    let (staked, to_remove) = staked_loop height want votes (pos 0, []) in
    (staked, delete_all to_remove votes)

-- The tests of the two verifiers, on the stake that was counted.
unfoldable pub may_pause : ℤ → ℤ → Bool
unfolding mul64
may_pause staked total_staked =
    if leb_ℤ staked (pos 0) || leb_ℤ total_staked (pos 0)
    then false
    else if ltb_ℤ (mul64 staked (pos 3)) total_staked
    then false
    else true

unfoldable pub may_replace : ℤ → ℤ → Bool
unfolding mul64
may_replace staked total_staked =
    if leb_ℤ staked (pos 0) || leb_ℤ total_staked (pos 0)
    then false
    else if ltb_ℤ (mul64 staked (pos 3)) (mul64 total_staked (pos 2))
    then false
    else true

-- Counting for the primary or the secondary scheme, with what it leaves of the votes.
unfoldable pub count_stake : ℤ → Bool → List ℕ → VotingState → ℤ × VotingState
unfolding staked_for_value
count_stake height true want s =
    let (staked, m) = staked_for_value s.votes_encryption1 height want in
    (staked, record s { votes_encryption1 = m })
count_stake height false want s =
    let (staked, m) = staked_for_value s.votes_encryption2 height want in
    (staked, record s { votes_encryption2 = m })

unfoldable pub verify_encryption_for_pausing :
    ℤ → ℤ → Bool → List ℕ → VotingState → Bool × VotingState
unfolding count_stake may_pause
verify_encryption_for_pausing height total_staked primary want s =
    let (staked, s') = count_stake height primary want s in (may_pause staked total_staked, s')

unfoldable pub verify_encryption_for_replacing :
    ℤ → ℤ → Bool → List ℕ → VotingState → Bool × VotingState
unfolding count_stake may_replace
verify_encryption_for_replacing height total_staked primary want s =
    let (staked, s') = count_stake height primary want s in (may_replace staked total_staked, s')

-- `if v.Height > height { delete(votes, id) }`
abbrev pub not_above : ℤ → ℕ → Votes → Bool
not_above height id v = leb_ℤ v.height height

unfoldable pub drop_votes_above : ℤ → VotingState → VotingState
unfolding retain
drop_votes_above height s = record s {
  votes_encryption1 = retain (not_above height) s.votes_encryption1;
  votes_encryption2 = retain (not_above height) s.votes_encryption2;
}
