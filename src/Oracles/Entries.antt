-- ===== src/Oracles/Entries.antt =====
-- The entries of the price data of a block, generated and parsed (oracles/oraclesDefinition.go).
use qwid_node.Staking.{StakingAccounts}
use qwid_node.Wire.RoundTrip.{get_int64_from_byte-get_byte_int64, length-get_byte_int64}
use qwid_node.Wire.{get_byte_int64}
use qwid_node.Base.{
  List, [], append-nil, append_assoc, arith, drop, drop-append, if◌then◌else◌, length,
  length-append, ok, refl, suc, sym, ℕ, ℕ_discrete, ◌*◌, ◌++◌, ◌<◌, ◌∙◌, ◌∷◌, ◌≡◌,
}
use qwid_node.Base.Int.{leb_of_lt, pos, ℤ, ◌<ℤ◌}
use qwid_node.Base.Int64.{Fits64, add64}
use qwid_node.Base.Table.{Table, get}
use qwid_node.Base.Update.{value_or}
use qwid_node.Oracles.{
  PriceData, PriceOracle, add_price, is_used, no_price, price_entry, price_loop,
}
use qwid_node.Oracles.Prices.{ParsedData, add_parsed, first_byte, int64_at, parse_loop, staked_in}

abbrev pub Entry : Type 0
Entry = ℕ × PriceOracle

-- The submissions that a block uses, in the order of their numbers.
unfoldable pub used : ℤ → Table ℕ PriceOracle → List ℕ → List Entry
unfolding get
used height m [] = []
used height m (i ∷ ids) =
    let po = value_or no_price (get ℕ_discrete i m) in
    let rest = used height m ids in if is_used height po then (i, po) ∷ rest else rest

abbrev pub entry_bytes : List Entry → List ℕ
entry_bytes [] = []
entry_bytes ((i, po) ∷ es) = price_entry i po ++ entry_bytes es

abbrev pub entry_prices : List Entry → List ℤ
entry_prices [] = []
entry_prices ((i, po) ∷ es) = po.price ∷ entry_prices es

abbrev pub entry_staked : ℤ → List Entry → ℤ
entry_staked sum [] = sum
entry_staked sum ((i, po) ∷ es) = entry_staked (add64 sum po.staked) es

abbrev pub collected : PriceData → List Entry → PriceData
collected g es = record {
  price_data = g.price_data ++ entry_bytes es;
  prices = g.prices ++ entry_prices es;
  staked = entry_staked g.staked es;
}

abbrev with_entry : ℕ → PriceOracle → PriceData → PriceData
with_entry i po g = record {
  price_data = g.price_data ++ price_entry i po;
  prices = g.prices ++ po.price ∷ [];
  staked = add64 g.staked po.staked;
}

collected-cons :
    (i : ℕ) (po : PriceOracle) (es : List Entry) (g : PriceData)
    → collected (with_entry i po g) es ≡ collected g ((i, po) ∷ es)
collected-cons i po es g = ground (
  arith,
  append_assoc g.price_data (price_entry i po) (entry_bytes es),
  append_assoc g.prices (po.price ∷ []) (entry_prices es),
)

add_price-if :
    (height : ℤ) (i : ℕ) (po : PriceOracle) (g : PriceData)
    → add_price height i po g ≡ (if is_used height po then with_entry i po g else g)
unfolding add_price
add_price-if height i po g = refl

pub price_loop-used :
    (height : ℤ) (m : Table ℕ PriceOracle) (ids : List ℕ) (g : PriceData)
    → price_loop height m ids g ≡ collected g (used height m ids)
unfolding price_loop used
price_loop-used height m [] g = grind (arith, append-nil)
price_loop-used height m (i ∷ ids) g =
    let po = value_or no_price (get ℕ_discrete i m) in
    ground (
      arith,
      add_price-if height i po g,
      price_loop-used height m ids g,
      price_loop-used height m ids (with_entry i po g),
      collected-cons i po (used height m ids) g,
    )

-- The numbers are bytes in strictly ascending order above `prev`, and the heights and prices are
-- int64s.
abbrev pub IsCanonical : ℤ → List Entry → Type 0
IsCanonical prev [] = Unit
IsCanonical prev ((i, po) ∷ es) =
    (prev <ℤ pos i)
    × (i < 256)
    × Fits64 po.height
    × Fits64 po.price
    × (pos 0 <ℤ po.price)
    × IsCanonical (pos i) es

length-price_entry : (i : ℕ) (po : PriceOracle) → length (price_entry i po) ≡ 17
unfolding price_entry
length-price_entry i po = omega (
  arith,
  length-append (get_byte_int64 po.height) (get_byte_int64 po.price),
  length-get_byte_int64 po.height,
  length-get_byte_int64 po.price,
)

pub length-entry_bytes : (es : List Entry) → length (entry_bytes es) ≡ length es * 17
length-entry_bytes [] = refl
length-entry_bytes ((i, po) ∷ es) = omega (
  arith,
  length-append (price_entry i po) (entry_bytes es),
  length-price_entry i po,
  length-entry_bytes es,
)

drop-entry : (i : ℕ) (po : PriceOracle) (rest : List ℕ) → drop 17 (price_entry i po ++ rest) ≡ rest
drop-entry i po rest = drop-append (price_entry i po) rest 17 (sym (length-price_entry i po))

int64_at-entry :
    (i : ℕ) (po : PriceOracle) (rest : List ℕ)
    → Fits64 po.height
    → Fits64 po.price
    → (int64_at 1 (price_entry i po ++ rest) ≡ po.height)
      × (int64_at 9 (price_entry i po ++ rest) ≡ po.price)
unfolding int64_at price_entry
int64_at-entry i po rest h k =
    let a = get_byte_int64 po.height in
    let b = get_byte_int64 po.price in
    let e = append_assoc a b rest in
    let d : drop 8 (a ++ (b ++ rest)) ≡ b ++ rest =
      drop-append a (b ++ rest) 8 (sym (length-get_byte_int64 po.height)) in
    (
      rw (e, get_int64_from_byte-get_byte_int64 po.height (b ++ rest) h),
      rw (e, d, get_int64_from_byte-get_byte_int64 po.price rest k),
    )

-- What the loop of `ParsePriceData` makes of the entries.
unfoldable pub add_all : StakingAccounts → List Entry → ParsedData → ParsedData
unfolding add_parsed staked_in
add_all s [] g = g
add_all s ((i, po) ∷ es) g = add_all s es (add_parsed i po.height po.price (staked_in s i) g)

abbrev pub snapshot_staked : StakingAccounts → ℤ → List Entry → ℤ
snapshot_staked s sum [] = sum
snapshot_staked s sum ((i, po) ∷ es) = snapshot_staked s (add64 sum (staked_in s i)) es

pub add_all_lists :
    (s : StakingAccounts) (es : List Entry) (g : ParsedData)
    → ((add_all s es g).prices ≡ g.prices ++ entry_prices es)
      × ((add_all s es g).all_staked ≡ snapshot_staked s g.all_staked es)
unfolding add_all add_parsed
add_all_lists s [] g = (sym (append-nil g.prices), refl)
add_all_lists s ((i, po) ∷ es) g =
    let (a, b) = add_all_lists s es (add_parsed i po.height po.price (staked_in s i) g) in
    (a ∙ append_assoc g.prices (po.price ∷ []) (entry_prices es), b)

first_byte-entry :
    (i : ℕ) (po : PriceOracle) (rest : List ℕ) → first_byte (price_entry i po ++ rest) ≡ i
unfolding price_entry
first_byte-entry i po rest = refl

parse_loop-entry :
    (s : StakingAccounts) (n : ℕ) (i : ℕ) (po : PriceOracle) (rest : List ℕ) (prev : ℤ)
    (g : ParsedData)
    → prev <ℤ pos i
    → Fits64 po.height
    → Fits64 po.price
    → pos 0 <ℤ po.price
    → parse_loop s (suc n) (price_entry i po ++ rest) prev g
      ≡ parse_loop s n rest (pos i) (add_parsed i po.height po.price (staked_in s i) g)
unfolding parse_loop
parse_loop-entry s n i po rest prev g above fh fp positive =
    let (a, b) = int64_at-entry i po rest fh fp in
    rw (
      first_byte-entry i po rest,
      a,
      b,
      drop-entry i po rest,
      leb_of_lt (pos i) prev above,
      leb_of_lt po.price (pos 0) positive,
    )

pub parse_loop-entries :
    (s : StakingAccounts) (es : List Entry) (prev : ℤ) (g : ParsedData)
    → IsCanonical prev es
    → parse_loop s (length es) (entry_bytes es) prev g ≡ ok (add_all s es g)
unfolding add_all
parse_loop-entries s [] prev g c = unfold parse_loop in refl
parse_loop-entries s ((i, po) ∷ es) prev g (above, byte, fh, fp, positive, c) =
    parse_loop-entry s (length es) i po (entry_bytes es) prev g above fh fp positive
    ∙ parse_loop-entries s es (pos i) (add_parsed i po.height po.price (staked_in s i) g) c
