-- ===== src/Transactions/Secrets.antt =====
-- The addresses and hashes of recovery transactions: common/recovery.go. What the check of a recovery
-- calls of other parts is the record `Outside`: the two Blake2b hashes, the lengths and addresses of
-- keys, the registry of public keys (pubkeys), and the checks of signatures (wallet and liboqs).
use qwid_node.Base.{
  Bool, List, Result, [], err, false, if◌then◌else◌, ite, length, ok, replicate, take, true, ℕ,
  ◌++◌, ◌==◌, ◌||◌, ◌∷◌,
}
use qwid_node.Base.Int.{pos, ℤ}
use qwid_node.Types.{Address, Hash, bytes_discrete, zero_address}
use qwid_node.Wire.{bytes_to_len_and_bytes, get_byte_int64}
use qwid_node.Wire.Fields.{FullAddress, get_hash_from_bytes}
use qwid_node.Transactions.{TxError}

-- The names of the domains, in ASCII.
abbrev pub commit_domain : List ℕ
commit_domain =
    113 ∷ 119 ∷ 105 ∷ 100 ∷ 45 ∷ 114 ∷ 101 ∷ 99 ∷ 111 ∷ 118 ∷ 101 ∷ 114 ∷ 121 ∷ 45 ∷ 99 ∷ 111 ∷ 109
    ∷ 109 ∷ 105 ∷ 116 ∷ []

abbrev pub tag_domain : List ℕ
tag_domain =
    113 ∷ 119 ∷ 105 ∷ 100 ∷ 45 ∷ 114 ∷ 101 ∷ 99 ∷ 111 ∷ 118 ∷ 101 ∷ 114 ∷ 121 ∷ 45 ∷ 116 ∷ 97 ∷ 103
    ∷ []

abbrev pub payload_domain : List ℕ
payload_domain =
    113 ∷ 119 ∷ 105 ∷ 100 ∷ 45 ∷ 114 ∷ 101 ∷ 99 ∷ 111 ∷ 118 ∷ 101 ∷ 114 ∷ 121 ∷ 45 ∷ 112 ∷ 97 ∷ 121
    ∷ 108 ∷ 111 ∷ 97 ∷ 100 ∷ []

abbrev pub bind_key_domain : List ℕ
bind_key_domain =
    113 ∷ 119 ∷ 105 ∷ 100 ∷ 45 ∷ 114 ∷ 101 ∷ 99 ∷ 111 ∷ 118 ∷ 101 ∷ 114 ∷ 121 ∷ 45 ∷ 98 ∷ 105 ∷ 110
    ∷ 100 ∷ 45 ∷ 107 ∷ 101 ∷ 121 ∷ []

abbrev pub open_domain : List ℕ
open_domain =
    113 ∷ 119 ∷ 105 ∷ 100 ∷ 45 ∷ 97 ∷ 100 ∷ 100 ∷ 114 ∷ 101 ∷ 115 ∷ 115 ∷ 45 ∷ 111 ∷ 112 ∷ 101 ∷ 110
    ∷ []

abbrev pub open_payload_domain : List ℕ
open_payload_domain =
    113 ∷ 119 ∷ 105 ∷ 100 ∷ 45 ∷ 97 ∷ 100 ∷ 100 ∷ 114 ∷ 101 ∷ 115 ∷ 115 ∷ 45 ∷ 111 ∷ 112 ∷ 101 ∷ 110
    ∷ 45 ∷ 112 ∷ 97 ∷ 121 ∷ 108 ∷ 111 ∷ 97 ∷ 100 ∷ []

abbrev pub recovery_bind_delay_blocks : ℤ
recovery_bind_delay_blocks = pos 360

abbrev pub recovery_secret_length : ℕ
recovery_secret_length = 32

-- `recoveryAddress('B')` and `recoveryAddress('R')`
abbrev pub recovery_bind_address : Address
recovery_bind_address = replicate 18 255 ++ (82 ∷ 66 ∷ [])

abbrev pub recovery_reveal_address : Address
recovery_reveal_address = replicate 18 255 ++ (82 ∷ 82 ∷ [])

abbrev pub same_bytes : List ℕ → List ℕ → Bool
same_bytes a b = ite (bytes_discrete a b) true false

abbrev pub is_recovery_address : FullAddress → Bool
is_recovery_address a =
    same_bytes a.byte_value recovery_bind_address || same_bytes a.byte_value recovery_reveal_address

abbrev pub lens : List (List ℕ) → List ℕ
lens [] = []
lens (p ∷ ps) = bytes_to_len_and_bytes p ++ lens ps

-- What `recoveryHash` hashes.
unfoldable pub recovery_input : List ℕ → List (List ℕ) → List ℕ
recovery_input domain ps = lens (domain ∷ ps)

pub record Outside : Type 0 where
  pub hash160 : List ℕ → List ℕ
  pub hash256 : List ℕ → List ℕ
  pub is_valid_pub_key_length : ℕ → Bool → Bool
  pub pub_key_to_address : List ℕ → Bool → FullAddress
  pub is_registered : Address → ℤ → Bool
  pub has_keys : Address → ℤ → Bool
  pub old_key_signs : List ℕ → List ℕ → List ℕ → List ℕ → Bool
  pub signs : List ℕ → List ℕ → List ℕ → Bool
  pub chain_id : ℤ
  pub height : ℤ

pub data RevealError : Type 0 where
  wrong_length has_policy_fields has_key no_identity no_key bad_key_length : RevealError
  wrong_key_address already_registered unknown_account already_has_keys already_has_commitments :
      RevealError
  not_the_address bad_old_signature no_commitment wrong_secret no_bind too_early expired :
      RevealError
  wrong_payload not_self_signed bad_signature : RevealError
  bad_part : TxError → RevealError

module _ (o : Outside) where
  unfoldable pub recovery_commitment : List ℕ → Result RevealError FullAddress
  unfolding recovery_input
  recovery_commitment secret =
      if length secret == recovery_secret_length
      then ok (record {
        byte_value =
            take 20 (o.hash160 (recovery_input commit_domain (secret ∷ [])) ++ zero_address);
        primary = true;
      })
      else err wrong_length

  unfoldable pub recovery_tag : List ℕ → Hash
  unfolding recovery_input get_hash_from_bytes
  recovery_tag secret = get_hash_from_bytes (o.hash256 (recovery_input tag_domain (secret ∷ [])))

  unfoldable pub recovery_payload : Address → Address → Address → List ℕ → Hash
  unfolding recovery_input get_hash_from_bytes
  recovery_payload identity new_key next secret =
      get_hash_from_bytes
        (o.hash256 (recovery_input payload_domain (identity ∷ new_key ∷ next ∷ secret ∷ [])))

  unfoldable pub recovery_bind_key : Address → Hash → Hash
  unfolding recovery_input get_hash_from_bytes
  recovery_bind_key identity tag =
      get_hash_from_bytes (o.hash256 (recovery_input bind_key_domain (identity ∷ tag ∷ [])))

  unfoldable pub address_open_message : Address → Address → Address → Address → List ℕ
  unfolding recovery_input
  address_open_message identity new_key next spare = o.hash256 (
      recovery_input open_domain
        (identity ∷ new_key ∷ next ∷ spare ∷ get_byte_int64 o.chain_id ∷ []))

  unfoldable pub address_open_payload : Address → Address → Address → Address → List ℕ → Hash
  unfolding recovery_input get_hash_from_bytes
  address_open_payload identity new_key next spare old_pub = get_hash_from_bytes (
      o.hash256
        (recovery_input open_payload_domain (identity ∷ new_key ∷ next ∷ spare ∷ old_pub ∷ [])))
