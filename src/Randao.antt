-- ===== src/Randao.antt =====
-- The chain's randomness: blocks/randao.go, `RandaoSeed` of wallet/randao.go and `randaoForBlock` of
-- services/blockCreation.go. The hash, `common.CalcHashToByte`, is the parameter `calc_hash`; it is
-- Blake2b without a key, which has no error case. The wallet is there and its lock is not modelled.
pub mod Binding
pub mod Producing
use qwid_node.Base.{
  Bool, List, Result, [], err, if◌then◌else◌, ite, length, not, ok, take, ℕ, ◌&&◌, ◌*◌, ◌++◌, ◌+◌,
  ◌/◌, ◌==◌, ◌>>=◌, ◌∷◌,
}
use qwid_node.Base.Int.{eqb_ℤ, leb_ℤ, ltb_ℤ, negsuc, pos, ℤ}
use qwid_node.Base.Int64.{sub64}
use qwid_node.Types.{Address, Hash, bytes_discrete, hash_length, zero_hash}
use qwid_node.Wire.{bytes_to_len_and_bytes, get_byte_int64}
use qwid_node.Wire.Fields.{get_hash_from_bytes}
use qwid_node.Delegated.{int_delegated_account_from_address}
use qwid_node.Staking.{StakingAccounts, StakingError}
use qwid_node.Staking.Nodes.{RandCommit, get_rand_commit, set_rand_commit}
use qwid_node.Blocks.{BaseHeader, Block}

-- The bytes of "QWID-RANDAO-mix-v1", "QWID-RANDAO-commit-v1", "QWID-RAND-v1" and "QWID-RANDAO-seed-v1".
abbrev pub randao_mix_domain : List ℕ
randao_mix_domain =
    81 ∷ 87 ∷ 73 ∷ 68 ∷ 45 ∷ 82 ∷ 65 ∷ 78 ∷ 68 ∷ 65 ∷ 79 ∷ 45 ∷ 109 ∷ 105 ∷ 120 ∷ 45 ∷ 118 ∷ 49 ∷ []

abbrev pub randao_commit_domain : List ℕ
randao_commit_domain =
    81 ∷ 87 ∷ 73 ∷ 68 ∷ 45 ∷ 82 ∷ 65 ∷ 78 ∷ 68 ∷ 65 ∷ 79 ∷ 45 ∷ 99 ∷ 111 ∷ 109 ∷ 109 ∷ 105 ∷ 116
    ∷ 45 ∷ 118 ∷ 49 ∷ []

abbrev pub randao_rand_domain : List ℕ
randao_rand_domain = 81 ∷ 87 ∷ 73 ∷ 68 ∷ 45 ∷ 82 ∷ 65 ∷ 78 ∷ 68 ∷ 45 ∷ 118 ∷ 49 ∷ []

abbrev pub randao_seed_domain : List ℕ
randao_seed_domain =
    81 ∷ 87 ∷ 73 ∷ 68 ∷ 45 ∷ 82 ∷ 65 ∷ 78 ∷ 68 ∷ 65 ∷ 79 ∷ 45 ∷ 115 ∷ 101 ∷ 101 ∷ 100 ∷ 45 ∷ 118
    ∷ 49 ∷ []

abbrev pub randao_seed_length : ℕ
randao_seed_length = hash_length

abbrev pub randao_commit_expiry : ℤ
randao_commit_expiry = pos 8640

pub data RandaoError : Type 0 where
  wrong_reveal_length no_commitment unexpected_oracle_data : RandaoError
  wrong_mix wrong_rand wrong_delegated_account : RandaoError
  reveal_without_commitment reveal_missing reveal_does_not_open : RandaoError
  no_wallet_secret cannot_open_commitment : RandaoError
  staking : StakingError → RandaoError

-- What `randaoForBlock` returns.
pub record RandaoFields : Type 0 where
  pub reveal : List ℕ
  pub commit : Hash
  pub mix : Hash
  pub rand : ℤ

-- The parts of a wallet that the seeds come from.
pub record Wallet : Type 0 where
  pub seed : List ℕ
  pub secret_key : List ℕ
  pub main_address : Address

abbrev pub parts_bytes : List (List ℕ) → List ℕ
parts_bytes [] = []
parts_bytes (p ∷ ps) = bytes_to_len_and_bytes p ++ parts_bytes ps

-- `binary.BigEndian.Uint64`, from the bytes read so far.
abbrev pub be_value : ℕ → List ℕ → ℕ
be_value acc [] = acc
be_value acc (b ∷ bs) = be_value (acc * 256 + b) bs

unfoldable pub must_delegated_account_id : Address → ℤ
must_delegated_account_id a = elim (int_delegated_account_from_address a) [
  | ok n ↦ pos n
  | err e ↦ negsuc 0
]

unfoldable pub reveal_due : ℤ → ℤ → Bool
reveal_due commit_height height =
    ltb_ℤ (pos 0) commit_height && leb_ℤ (sub64 height commit_height) randao_commit_expiry

abbrev pub staking_result {ℓ} : {A : Type ℓ} → Result StakingError A → Result RandaoError A
staking_result (ok a) = ok a
staking_result (err e) = err (staking e)

-- `n < 1 || n > 255`
abbrev pub is_delegated : ℤ → Bool
is_delegated n = leb_ℤ (pos 1) n && leb_ℤ n (pos 255)

abbrev pub header_of : Block → BaseHeader
header_of b = b.base_block.base_header

unfoldable pub apply_randao_commit : Block → StakingAccounts → Result RandaoError StakingAccounts
apply_randao_commit block s =
    let header = header_of block in
    let n = must_delegated_account_id header.delegated_account.byte_value in
    if eqb_ℤ header.height (pos 0)
    then ok s
    else if is_delegated n
    then staking_result (
        set_rand_commit n header.operator_account.byte_value
          (get_hash_from_bytes block.base_block.rand_commit) header.height s)
    else err wrong_delegated_account

module _ (calc_hash : List ℕ → Hash) where
  unfoldable pub domain_hash : List ℕ → List (List ℕ) → Hash
  domain_hash domain ps =
      get_hash_from_bytes (calc_hash (bytes_to_len_and_bytes domain ++ parts_bytes ps))

  unfoldable pub randao_commitment : List ℕ → Hash
  randao_commitment seed = domain_hash randao_commit_domain (seed ∷ [])

  abbrev pub parent_mix : Block → Hash
  parent_mix parent =
      if eqb_ℤ (header_of parent).height (pos 0)
      then parent.block_hash
      else parent.base_block.rand_mix

  unfoldable pub mix_hash : Hash → ℤ → List ℕ → Hash
  mix_hash prev height reveal =
      domain_hash randao_mix_domain (prev ∷ get_byte_int64 height ∷ reveal ∷ [])

  unfoldable pub rand_from_mix : Hash → ℤ
  rand_from_mix mix = pos (be_value 0 (take 8 (domain_hash randao_rand_domain (mix ∷ []))) / 2)

  unfoldable pub randao_fields : Block → ℤ → List ℕ → List ℕ → RandaoFields
  randao_fields parent height reveal next_seed =
      let mix = mix_hash (parent_mix parent) height reveal in
      record {
        reveal = reveal;
        commit = randao_commitment next_seed;
        mix = mix;
        rand = rand_from_mix mix;
      }

  unfoldable pub randao_seed : Wallet → ℤ → Result RandaoError (List ℕ)
  randao_seed w height =
      let secret = (if length w.seed == 0 then w.secret_key else w.seed) in
      if length secret == 0
      then err no_wallet_secret
      else ok (
          calc_hash (
            bytes_to_len_and_bytes randao_seed_domain
            ++ (bytes_to_len_and_bytes secret ++ get_byte_int64 height)))

  unfoldable pub verify_randao_stateless : Block → Block → Result RandaoError (Unit {0})
  verify_randao_stateless new_block last_block =
      let bb = new_block.base_block in
      let height = (header_of new_block).height in
      let n = length bb.rand_reveal in
      if eqb_ℤ height (pos 0)
      then ok tt
      else if not (n == 0) && not (n == randao_seed_length)
      then err wrong_reveal_length
      else ite (bytes_discrete bb.rand_commit zero_hash) (err no_commitment) (
          if not (length bb.rand_oracle_data == 0)
          then err unexpected_oracle_data
          else ite
              (bytes_discrete bb.rand_mix (mix_hash (parent_mix last_block) height bb.rand_reveal))
              (if eqb_ℤ bb.rand_oracle (rand_from_mix bb.rand_mix) then ok tt else err wrong_rand)
              (err wrong_mix))

  -- The check of a reveal against the commitment that the chain holds.
  unfoldable pub check_reveal : ℤ → List ℕ → RandCommit → Result RandaoError (Unit {0})
  check_reveal height reveal held =
      if reveal_due held.height height
      then (if length reveal == 0
          then err reveal_missing
          else ite (bytes_discrete (randao_commitment reveal) held.commit) (ok tt)
              (err reveal_does_not_open))
      else if length reveal == 0
      then ok tt
      else err reveal_without_commitment

  unfoldable pub verify_randao_reveal : Block → StakingAccounts → Result RandaoError (Unit {0})
  verify_randao_reveal new_block s =
      let header = header_of new_block in
      let n = must_delegated_account_id header.delegated_account.byte_value in
      if eqb_ℤ header.height (pos 0)
      then ok tt
      else if is_delegated n
      then (staking_result (get_rand_commit n header.operator_account.byte_value s)
          >>= check_reveal header.height new_block.base_block.rand_reveal)
      else err wrong_delegated_account

  -- The seed a producer reveals: the one it committed to, if the commitment is due.
  unfoldable pub open_commitment : Wallet → ℤ → RandCommit → Result RandaoError (List ℕ)
  open_commitment w height held =
      if reveal_due held.height height
      then elim (randao_seed w held.height) [
        | err e ↦ err cannot_open_commitment
        | ok seed ↦
            ite (bytes_discrete (randao_commitment seed) held.commit) (ok seed)
              (err cannot_open_commitment)
      ]
      else ok []

  unfoldable pub randao_for_block :
      Wallet → Address → Block → ℤ → StakingAccounts → Result RandaoError RandaoFields
  randao_for_block w delegated last_block height s =
      elim (int_delegated_account_from_address delegated) [
        | err e ↦ err wrong_delegated_account
        | ok n ↦
            if is_delegated (pos n)
            then (do
              held ← staking_result (get_rand_commit (pos n) w.main_address s)
              reveal ← open_commitment w height held
              next ← randao_seed w height
              ok (randao_fields last_block height reveal next))
            else err wrong_delegated_account
      ]
