-- ===== src/Oracles.antt =====
-- The price oracle: oracles/oraclesDefinition.go. The two maps are tables keyed by the uint8 number
-- of a delegated account, in the order in which a loop ranges over them. The stake of a number is
-- that of account.GetStakedInDelegatedAccount in the given staking accounts.
pub mod Prices
pub mod Entries
pub mod Agreement
pub mod Verified
pub mod Middle
pub mod Majority
use qwid_node.Base.{
  Bool, List, Option, Result, [], err, if◌then◌else◌, ltb, map, none, ok, some, true, ℕ, ℕ_discrete,
  ◌&&◌, ◌++◌, ◌||◌, ◌∷◌,
}
use qwid_node.Base.Int.{leb_ℤ, ltb_ℤ, pos, pos_part, ℤ}
use qwid_node.Base.Int64.{add64}
use qwid_node.Base.Sort.{sort}
use qwid_node.Base.Table.{Table, get, put, retain}
use qwid_node.Base.Update.{value_or}
use qwid_node.Types.{Address}
use qwid_node.Wire.{get_byte_int64}
use qwid_node.Delegated.{get_id_from_delegated_account_address}

pub record PriceOracle : Type 0 where
  pub price : ℤ
  pub height : ℤ
  pub staked : ℤ

pub record OracleProof : Type 0 where
  pub height : ℤ
  pub tx_bytes : List ℕ

pub record Oracles : Type 0 where
  pub price_oracles : Table ℕ PriceOracle
  pub oracle_proofs : Table ℕ OracleProof

pub data OracleError : Type 0 where
  invalid_account invalid_height bad_length not_ascending non_positive_price : OracleError
  not_enough_stake too_few_prices : OracleError

abbrev pub oracles_height_distance : ℤ
oracles_height_distance = pos 6

-- `!exists || p.height < height`
abbrev pub is_newer_proof : Option OracleProof → ℤ → Bool
is_newer_proof none height = true
is_newer_proof (some p) height = ltb_ℤ p.height height

abbrev pub is_newer_price : Option PriceOracle → ℤ → Bool
is_newer_price none height = true
is_newer_price (some po) height = ltb_ℤ po.height height

unfoldable pub save_oracle_proof : Address → ℤ → List ℕ → Oracles → Result OracleError Oracles
unfolding get_id_from_delegated_account_address get put
save_oracle_proof delegated_account height tx_bytes s =
    let id = get_id_from_delegated_account_address delegated_account in
    if leb_ℤ id (pos 0) || leb_ℤ (pos 256) id
    then err invalid_account
    else if is_newer_proof (get ℕ_discrete (pos_part id) s.oracle_proofs) height
    then ok (record s {
      oracle_proofs =
          put ℕ_discrete (pos_part id) (record { height = height; tx_bytes = tx_bytes })
            s.oracle_proofs;
    })
    else ok s

unfoldable pub save_price_oracle : ℤ → ℤ → Address → ℤ → Oracles → Result OracleError Oracles
unfolding get_id_from_delegated_account_address get put
save_price_oracle price height delegated_account staked s =
    let id = get_id_from_delegated_account_address delegated_account in
    if leb_ℤ id (pos 0) || leb_ℤ (pos 256) id
    then err invalid_account
    else if is_newer_price (get ℕ_discrete (pos_part id) s.price_oracles) height
    then ok (record s {
      price_oracles =
          put ℕ_discrete (pos_part id) (record { price = price; height = height; staked = staked })
            s.price_oracles;
    })
    else err invalid_height

-- The keys of a table, sorted.
unfoldable pub sorted_ids : {V : Type 0} → Table ℕ V → List ℕ
unfolding sort
sorted_ids m = sort ltb (map (λ e. e.0) m)

-- `h <= height && height <= h+OraclesHeightDistance`
unfoldable pub is_fresh : ℤ → ℤ → Bool
unfolding add64
is_fresh height h = leb_ℤ h height && leb_ℤ height (add64 h oracles_height_distance)

abbrev pub no_proof : OracleProof
no_proof = record { height = pos 0; tx_bytes = [] }

unfoldable pub proofs_of : Table ℕ OracleProof → List ℕ → List (List ℕ)
unfolding get
proofs_of m [] = []
proofs_of m (id ∷ ids) = (value_or no_proof (get ℕ_discrete id m)).tx_bytes ∷ proofs_of m ids

unfoldable pub generate_oracle_proofs : ℤ → Oracles → List (List ℕ)
unfolding is_fresh retain sorted_ids proofs_of
generate_oracle_proofs height s =
    proofs_of s.oracle_proofs
      (sorted_ids (retain (λ id (p : OracleProof). is_fresh height p.height) s.oracle_proofs))

pub record PriceData : Type 0 where
  pub price_data : List ℕ
  pub prices : List ℤ
  pub staked : ℤ

abbrev pub no_prices : PriceData
no_prices = record { price_data = []; prices = []; staked = pos 0 }

abbrev pub no_price : PriceOracle
no_price = record { price = pos 0; height = pos 0; staked = pos 0 }

-- The 17 bytes of one submission.
unfoldable pub price_entry : ℕ → PriceOracle → List ℕ
price_entry i po = i ∷ get_byte_int64 po.height ++ get_byte_int64 po.price

abbrev pub is_used : ℤ → PriceOracle → Bool
is_used height po = is_fresh height po.height && ltb_ℤ (pos 0) po.price

-- The body of the loop of `GeneratePriceData`.
unfoldable pub add_price : ℤ → ℕ → PriceOracle → PriceData → PriceData
unfolding is_fresh price_entry add64
add_price height i po g =
    if is_used height po
    then record {
      price_data = g.price_data ++ price_entry i po;
      prices = g.prices ++ po.price ∷ [];
      staked = add64 g.staked po.staked;
    }
    else g

unfoldable pub price_loop : ℤ → Table ℕ PriceOracle → List ℕ → PriceData → PriceData
unfolding add_price get
price_loop height m [] g = g
price_loop height m (i ∷ ids) g =
    price_loop height m ids (add_price height i (value_or no_price (get ℕ_discrete i m)) g)

unfoldable pub generate_price_data : ℤ → Oracles → PriceData
unfolding price_loop sorted_ids
generate_price_data height s =
    price_loop height s.price_oracles (sorted_ids s.price_oracles) no_prices
