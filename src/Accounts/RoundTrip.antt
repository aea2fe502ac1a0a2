-- ===== src/Accounts/RoundTrip.antt =====
-- An account that is marshalled and unmarshalled is itself (account/baseAccount.go).
use qwid_node.Base.{
  List, [], ap, append-nil, append_assoc, arith, drop, drop-append, false, length, length-append,
  ltb, ok, refl, suc, sym, true, ℕ, ◌%◌, ◌*◌, ◌++◌, ◌+◌, ◌<◌, ◌>>=◌, ◌^◌, ◌∙◌, ◌∷◌, ◌≡◌, ◌≤◌,
}
use qwid_node.Base.Int.{pos}
use qwid_node.Base.Int64.{Fits64}
use qwid_node.Types.{Account, Address, Hash, zero_account}
use qwid_node.Wire.{get_byte_int64}
use qwid_node.Wire.RoundTrip.{length-get_byte_int64}
use qwid_node.Wire.Fields.{AreSized, cut, cut-join, join, join-append, length-join}
use qwid_node.Wire.Slices.{
  AreAllSized, chunks-join, drop-join, drop-join_sized, int64_of, int64_of-get_byte_int64,
  int64_of_lem, length-join_le, length-join_sized, not_below,
}
use qwid_node.Accounts.Bytes.{
  account_fields, account_sizes, counted, counters, first_byte, is_bad_count, marshal,
  recovery_fields, spare_fields, unmarshal, unmarshal_counters, unmarshal_lists,
  unmarshal_multi_sign, unmarshal_recipients, unmarshal_recovery, unmarshal_rest, unmarshal_spare,
  with_fixed,
}

-- What Go's types give the fields of an account: int64s, a byte, arrays of 20 and 32 bytes and slices
-- that memory can hold, with at most 255 addresses that sign.
pub record IsAccount (a : Account) : Type 0 where
  pub balance : Fits64 a.balance
  pub address : length a.address ≡ 20
  pub transaction_delay : Fits64 a.transaction_delay
  pub multi_sign_few : length a.multi_sign_addresses < 256
  pub multi_sign_addresses : AreAllSized 20 a.multi_sign_addresses
  pub senders_few : length a.transactions_sender < 2 ^ 63
  pub transactions_sender : AreAllSized 32 a.transactions_sender
  pub recipients_few : length a.transactions_recipient < 2 ^ 63
  pub transactions_recipient : AreAllSized 32 a.transactions_recipient
  pub sent_count : Fits64 a.sent_count
  pub received_count : Fits64 a.received_count
  pub recovery_commit : length a.recovery_commit ≡ 20
  pub recovery_pending_commit : length a.recovery_pending_commit ≡ 20
  pub recovery_pending_height : Fits64 a.recovery_pending_height
  pub spare_commit : length a.spare_commit ≡ 20
  pub spare_pending_commit : length a.spare_pending_commit ≡ 20

-- A count, and the bytes behind it.
count_read :
    (xs : List (List ℕ)) (rest : List ℕ)
    → length xs < 2 ^ 63
    → AreAllSized 32 xs
    → (int64_of (counted xs ++ rest) ≡ pos (length xs))
      × (drop 8 (counted xs ++ rest) ≡ join xs ++ rest)
      × (is_bad_count (pos (length xs)) (join xs ++ rest) ≡ false)
      × (8 + length rest ≤ length (counted xs ++ rest))
count_read xs rest few sized =
    let n = get_byte_int64 (pos (length xs)) in
    let eight = length-get_byte_int64 (pos (length xs)) in
    let split = append_assoc n (join xs) rest in
    let room : length (join xs ++ rest) ≡ length xs * 32 + length rest =
      length-append (join xs) rest ∙ ap (λ k. k + length rest) (length-join_sized 32 xs sized) in
    let whole : length (counted xs ++ rest) ≡ 8 + length (join xs ++ rest) =
      ap length split
      ∙ length-append n (join xs ++ rest)
      ∙ ap (λ k. k + length (join xs ++ rest)) eight in
    (
      ap int64_of split
          ∙ int64_of-get_byte_int64 (pos (length xs)) (join xs ++ rest) (omega (arith, few)),
      ap (drop 8) split ∙ drop-append n (join xs ++ rest) 8 (sym eight),
      ground (arith, room),
      omega (arith, whole, room),
    )

recipients_read :
    (a : Account) (xs : List Hash) (rest : List ℕ)
    → length xs < 2 ^ 63
    → AreAllSized 32 xs
    → unmarshal_recipients a (counted xs ++ rest)
      ≡ ok (record a { transactions_recipient = xs }, rest)
unfolding unmarshal_recipients
recipients_read a xs rest few sized =
    let (number, behind, good, enough) = count_read xs rest few sized in
    let eight : 8 ≤ length (counted xs ++ rest) = omega (arith, enough) in
    rw
      (
        number,
        behind,
        good,
        not_below eight,
        chunks-join 32 xs rest sized,
        drop-join_sized 32 xs rest sized,
      )
      refl

lists_read :
    (a : Account) (xs ys : List Hash) (rest : List ℕ)
    → length xs < 2 ^ 63
    → AreAllSized 32 xs
    → length ys < 2 ^ 63
    → AreAllSized 32 ys
    → unmarshal_lists a (counted xs ++ (counted ys ++ rest))
      ≡ ok (record a { transactions_sender = xs; transactions_recipient = ys }, rest)
unfolding unmarshal_lists
lists_read a xs ys rest few sized few' sized' =
    let (number, behind, good, enough) = count_read xs (counted ys ++ rest) few sized in
    let (n, b, g, more) = count_read ys rest few' sized' in
    let sixteen : 16 ≤ length (counted xs ++ (counted ys ++ rest)) = omega (arith, enough, more) in
    rw
      (
        number,
        behind,
        good,
        not_below sixteen,
        chunks-join 32 xs (counted ys ++ rest) sized,
        drop-join_sized 32 xs (counted ys ++ rest) sized,
      )
      (recipients_read (record a { transactions_sender = xs }) ys rest few' sized')

rest_read :
    (a b : Account)
    → IsAccount a
    → unmarshal_rest b (join (counters a) ++ (join (recovery_fields a) ++ join (spare_fields a)))
      ≡ record b {
        sent_count = a.sent_count;
        received_count = a.received_count;
        recovery_commit = a.recovery_commit;
        recovery_pending_commit = a.recovery_pending_commit;
        recovery_pending_height = a.recovery_pending_height;
        spare_commit = a.spare_commit;
        spare_pending_commit = a.spare_pending_commit;
      }
unfolding unmarshal_rest unmarshal_counters unmarshal_recovery unmarshal_spare
rest_read a b w =
    let counts = join (counters a) in
    let recovery = join (recovery_fields a) in
    let spare = join (spare_fields a) in
    let sizes1 : AreSized (8 ∷ 8 ∷ []) (counters a) =
      (length-get_byte_int64 a.sent_count, (length-get_byte_int64 a.received_count, tt)) in
    let sizes2 : AreSized (20 ∷ 20 ∷ 8 ∷ []) (recovery_fields a) = (
      w.recovery_commit,
      (w.recovery_pending_commit, (length-get_byte_int64 a.recovery_pending_height, tt)),
    ) in
    let sizes3 : AreSized (20 ∷ 20 ∷ []) (spare_fields a) =
      (w.spare_commit, (w.spare_pending_commit, tt)) in
    let last : cut (20 ∷ 20 ∷ []) spare ≡ spare_fields a =
      ap (cut (20 ∷ 20 ∷ [])) (sym (append-nil spare))
      ∙ cut-join (20 ∷ 20 ∷ []) (spare_fields a) [] sizes3 in
    let forty : 40 ≤ length spare =
      omega (arith, length-join (20 ∷ 20 ∷ []) (spare_fields a) sizes3) in
    rw
      (
        not_below (length-join_le (8 ∷ 8 ∷ []) (counters a) (recovery ++ spare) sizes1),
        cut-join (8 ∷ 8 ∷ []) (counters a) (recovery ++ spare) sizes1,
        drop-join (8 ∷ 8 ∷ []) (counters a) (recovery ++ spare) sizes1,
        not_below (length-join_le (20 ∷ 20 ∷ 8 ∷ []) (recovery_fields a) spare sizes2),
        cut-join (20 ∷ 20 ∷ 8 ∷ []) (recovery_fields a) spare sizes2,
        drop-join (20 ∷ 20 ∷ 8 ∷ []) (recovery_fields a) spare sizes2,
        not_below forty,
        last,
        int64_of_lem a.sent_count w.sent_count,
        int64_of_lem a.received_count w.received_count,
        int64_of_lem a.recovery_pending_height w.recovery_pending_height,
      )
      refl

multi_sign_read :
    (a : Account) (xs : List Address) (rest : List ℕ)
    → a.multi_sign_addresses ≡ []
    → AreAllSized 20 xs
    → unmarshal_multi_sign (length xs) a (join xs ++ rest)
      ≡ ok (record a { multi_sign_addresses = xs }, rest)
unfolding unmarshal_multi_sign join
multi_sign_read a [] rest e sized = λ i. ok (record a { multi_sign_addresses = e i }, rest)
multi_sign_read a (x ∷ xs) rest e sized =
    let ys = x ∷ xs in
    let enough : length ys * 20 ≤ length (join ys ++ rest) =
      omega (arith, length-append (join ys) rest, length-join_sized 20 ys sized) in
    let some_left : ltb 0 (suc (length xs)) ≡ true = ground arith in
    rw (some_left, not_below enough, chunks-join 20 ys rest sized, drop-join_sized 20 ys rest sized)
      refl

-- The byte in front of the addresses that sign.
number_read :
    (a : Account) (rest : List ℕ)
    → IsAccount a
    → first_byte (drop 37 (join (account_fields a) ++ rest)) ≡ length a.multi_sign_addresses
unfolding join
number_read a rest w =
    let before =
      get_byte_int64 a.balance
      ∷ a.address
      ∷ get_byte_int64 a.transaction_delay
      ∷ (a.multi_sign_number ∷ [])
      ∷ [] in
    let number = length a.multi_sign_addresses % 256 ∷ [] in
    let sizes : AreSized (8 ∷ 20 ∷ 8 ∷ 1 ∷ []) before = (
      length-get_byte_int64 a.balance,
      (w.address, (length-get_byte_int64 a.transaction_delay, (refl, tt))),
    ) in
    let small : length a.multi_sign_addresses % 256 ≡ length a.multi_sign_addresses =
      omega (arith, w.multi_sign_few) in
    ap (λ b. first_byte (drop 37 (b ++ rest))) (join-append before (number ∷ []))
    ∙ ap (λ b. first_byte (drop 37 b)) (append_assoc (join before) number rest)
    ∙ ap first_byte (drop-join (8 ∷ 20 ∷ 8 ∷ 1 ∷ []) before (number ++ rest) sizes)
    ∙ small

-- An account within the bounds of its Go types, with at most 255 addresses that sign, is read back
-- from its bytes without an error, to itself.
pub unmarshal-marshal : (a : Account) → IsAccount a → unmarshal zero_account (marshal a) ≡ ok a
unfolding unmarshal marshal
unmarshal-marshal a w =
    let tail = join (counters a) ++ (join (recovery_fields a) ++ join (spare_fields a)) in
    let lists = counted a.transactions_sender ++ (counted a.transactions_recipient ++ tail) in
    let rest = join a.multi_sign_addresses ++ lists in
    let sizes : AreSized account_sizes (account_fields a) = (
      length-get_byte_int64 a.balance,
      (w.address, (length-get_byte_int64 a.transaction_delay, (refl, (refl, tt)))),
    ) in
    let number : first_byte (drop 37 (join (account_fields a) ++ rest))
        ≡ length a.multi_sign_addresses =
      number_read a rest w in
    rw
      (
        not_below (length-join_le account_sizes (account_fields a) rest sizes),
        number,
        cut-join account_sizes (account_fields a) rest sizes,
        drop-join account_sizes (account_fields a) rest sizes,
        multi_sign_read (with_fixed zero_account (account_fields a)) a.multi_sign_addresses lists
            refl w.multi_sign_addresses,
      )
      (ap (λ r. r >>= (λ q. ok (unmarshal_rest (q.0) (q.1))))
          (lists_read _ a.transactions_sender a.transactions_recipient tail w.senders_few
            w.transactions_sender w.recipients_few w.transactions_recipient)
        ∙ ap ok (rest_read a _ w)
        ∙ (λ i. ok (record a {
          balance = int64_of_lem a.balance w.balance i;
          transaction_delay = int64_of_lem a.transaction_delay w.transaction_delay i;
        })))
