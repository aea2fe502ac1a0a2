-- ===== src/Accounts/Bytes.antt =====
-- The bytes of an account and back: `Marshal` and `Unmarshal` of account/baseAccount.go.
use qwid_node.Base.{
  Bool, List, Result, [], drop, err, if◌then◌else◌, length, ltb, ok, ℕ, ◌%◌, ◌*◌, ◌++◌, ◌/◌, ◌>>=◌,
  ◌||◌, ◌∷◌,
}
use qwid_node.Base.Int.{ltb_ℤ, pos, pos_part, ℤ}
use qwid_node.Types.{Account}
use qwid_node.Wire.{get_byte_int64}
use qwid_node.Wire.Slices.{chunks, int64_of}
use qwid_node.Wire.Fields.{cut, join}

pub data UnmarshalError : Type 0 where
  wrong_number_of_bytes short_multi_sign bad_sender_count : UnmarshalError
  no_recipient_count bad_recipient_count : UnmarshalError

abbrev pub account_fields : Account → List (List ℕ)
account_fields a =
    get_byte_int64 a.balance
    ∷ a.address
    ∷ get_byte_int64 a.transaction_delay
    ∷ (a.multi_sign_number ∷ [])
    ∷ (length a.multi_sign_addresses % 256 ∷ [])
    ∷ []

abbrev pub account_sizes : List ℕ
account_sizes = 8 ∷ 20 ∷ 8 ∷ 1 ∷ 1 ∷ []

abbrev pub counters : Account → List (List ℕ)
counters a = get_byte_int64 a.sent_count ∷ get_byte_int64 a.received_count ∷ []

abbrev pub recovery_fields : Account → List (List ℕ)
recovery_fields a =
    a.recovery_commit ∷ a.recovery_pending_commit ∷ get_byte_int64 a.recovery_pending_height ∷ []

abbrev pub spare_fields : Account → List (List ℕ)
spare_fields a = a.spare_commit ∷ a.spare_pending_commit ∷ []

-- A list with its length in eight bytes.
abbrev pub counted : List (List ℕ) → List ℕ
counted xs = get_byte_int64 (pos (length xs)) ++ join xs

unfoldable pub marshal : Account → List ℕ
marshal a =
    join (account_fields a)
    ++ (join a.multi_sign_addresses
        ++ (counted a.transactions_sender
            ++ (counted a.transactions_recipient
                ++ (join (counters a) ++ (join (recovery_fields a) ++ join (spare_fields a))))))

-- The account so far and the bytes that are left.
abbrev pub Unread : Type 0
Unread = Account × List ℕ

abbrev pub first_byte : List ℕ → ℕ
first_byte [] = 0
first_byte (b ∷ bs) = b

-- The account with the first four of its fixed fields; there are always five.
abbrev pub with_fixed : Account → List (List ℕ) → Account
with_fixed a (balance ∷ address ∷ delay ∷ number ∷ n ∷ []) = record a {
  balance = int64_of balance;
  address = address;
  transaction_delay = int64_of delay;
  multi_sign_number = first_byte number;
}
with_fixed a _ = a

unfoldable pub unmarshal_multi_sign : ℕ → Account → List ℕ → Result UnmarshalError Unread
unmarshal_multi_sign msa a b =
    if ltb 0 msa
    then (if ltb (length b) (msa * 20)
        then err short_multi_sign
        else ok (record a { multi_sign_addresses = chunks msa 20 b }, drop (msa * 20) b))
    else ok (a, b)

-- A count that is negative or too large for the bytes behind it.
abbrev pub is_bad_count : ℤ → List ℕ → Bool
is_bad_count n b = ltb_ℤ n (pos 0) || ltb_ℤ (pos (length b / 32)) n

unfoldable pub unmarshal_recipients : Account → List ℕ → Result UnmarshalError Unread
unmarshal_recipients a b =
    let ntr = int64_of b in
    let data_left = drop 8 b in
    if ltb (length b) 8
    then err no_recipient_count
    else if is_bad_count ntr data_left
    then err bad_recipient_count
    else ok (
      record a { transactions_recipient = chunks (pos_part ntr) 32 data_left },
      drop (pos_part ntr * 32) data_left,
    )

unfoldable pub unmarshal_lists : Account → List ℕ → Result UnmarshalError Unread
unmarshal_lists a b =
    let nts = int64_of b in
    let data_left = drop 8 b in
    if ltb (length b) 16
    then ok (a, b)
    else if is_bad_count nts data_left
    then err bad_sender_count
    else unmarshal_recipients
        (record a { transactions_sender = chunks (pos_part nts) 32 data_left })
        (drop (pos_part nts * 32) data_left)

abbrev pub with_counters : Account → List (List ℕ) → Account
with_counters a (sent ∷ received ∷ []) = record a {
  sent_count = int64_of sent;
  received_count = int64_of received;
}
with_counters a _ = a

unfoldable pub unmarshal_counters : Account → List ℕ → Unread
unmarshal_counters a b =
    if ltb (length b) 16
    then (
      record a {
        sent_count = pos (length a.transactions_sender);
        received_count = pos (length a.transactions_recipient);
      },
      b,
    )
    else (with_counters a (cut (8 ∷ 8 ∷ []) b), drop 16 b)

abbrev pub with_recovery : Account → List (List ℕ) → Account
with_recovery a (commit ∷ pending ∷ height ∷ []) = record a {
  recovery_commit = commit;
  recovery_pending_commit = pending;
  recovery_pending_height = int64_of height;
}
with_recovery a _ = a

unfoldable pub unmarshal_recovery : Account → List ℕ → Unread
unmarshal_recovery a b =
    if ltb (length b) 48 then (a, b) else (with_recovery a (cut (20 ∷ 20 ∷ 8 ∷ []) b), drop 48 b)

abbrev pub with_spare : Account → List (List ℕ) → Account
with_spare a (commit ∷ pending ∷ []) = record a {
  spare_commit = commit;
  spare_pending_commit = pending;
}
with_spare a _ = a

unfoldable pub unmarshal_spare : Account → List ℕ → Account
unmarshal_spare a b = if ltb (length b) 40 then a else with_spare a (cut (20 ∷ 20 ∷ []) b)

-- The fields behind the lists, each group if its bytes are there.
unfoldable pub unmarshal_rest : Account → List ℕ → Account
unmarshal_rest a b =
    let p = unmarshal_counters a b in
    let q = unmarshal_recovery (p.0) (p.1) in unmarshal_spare (q.0) (q.1)

unfoldable pub unmarshal : Account → List ℕ → Result UnmarshalError Account
unmarshal a b =
    if ltb (length b) 38
    then err wrong_number_of_bytes
    else (unmarshal_multi_sign (first_byte (drop 37 b)) (with_fixed a (cut account_sizes b))
          (drop 38 b)
        >>= (λ p. unmarshal_lists (p.0) (p.1))
        >>= (λ q. ok (unmarshal_rest (q.0) (q.1))))
