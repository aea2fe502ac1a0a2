-- ===== src/Voting/Saves.antt =====
-- What a sequence of votes, accepted or refused, does to a map of votes.
use qwid_node.Delegated.{get_id_from_delegated_account_address}
use qwid_node.Base.{
  Bool-cases, List, Option, Result, [], arith, err, false, if_neg, if_pos, inl, inr, length, none,
  ok, refl, some, true, ℕ, ℕ_discrete, ◌<◌, ◌==◌, ◌||◌, ◌∙◌, ◌∷◌, ◌≡◌, ◌≤◌, ◌⊎◌,
}
use qwid_node.Base.Int.{leb_ℤ, ltb_ℤ, negsuc, pos, pos_part, ℤ, ◌<ℤ◌}
use qwid_node.Base.Table.{IsTable, Table, get, get-put, put, put-IsTable}
use qwid_node.Types.{Address}
use qwid_node.Voting.{Votes, is_newer, save_votes}

pub record Ballot : Type 0 where
  pub value : List ℕ
  pub height : ℤ
  pub account : Address
  pub staked : ℤ

abbrev pub after {ℓ κ} : {E : Type κ} {A : Type ℓ} → A → Result E A → A
after a (ok b) = b
after a (err e) = a

-- The map after each ballot in turn; a refused one changes nothing.
unfoldable pub save_all : List Ballot → Table ℕ Votes → Table ℕ Votes
save_all [] m = m
save_all (b ∷ bs) m = save_all bs (after m (save_votes b.value b.height b.account b.staked m))

-- The vote stays, or one from a strictly greater height has taken its place.
abbrev pub IsKeptOrNewer : Option Votes → Option Votes → Type 0
IsKeptOrNewer none o = Unit
IsKeptOrNewer (some p) none = ⊥
IsKeptOrNewer (some p) (some q) = (q ≡ p) ⊎ (p.height <ℤ q.height)

IsKeptOrNewer-refl : (o : Option Votes) → IsKeptOrNewer o o
IsKeptOrNewer-refl none = tt
IsKeptOrNewer-refl (some p) = inl refl

IsKeptOrNewer-trans :
    (o p q : Option Votes) → IsKeptOrNewer o p → IsKeptOrNewer p q → IsKeptOrNewer o q
IsKeptOrNewer-trans none p q h k = tt
IsKeptOrNewer-trans (some a) none q h k = absurd h
IsKeptOrNewer-trans (some a) (some b) none h k = absurd k
IsKeptOrNewer-trans (some a) (some b) (some c) (inl e) (inl f) = inl (f ∙ e)
IsKeptOrNewer-trans (some a) (some b) (some c) (inl e) (inr f) = inr (rw (← e) f)
IsKeptOrNewer-trans (some a) (some b) (some c) (inr e) (inl f) = inr (rw f e)
IsKeptOrNewer-trans (some a) (some b) (some c) (inr e) (inr f) = inr (omega arith)

-- Every key is the number of a delegated account.
abbrev pub IsNumbered : Table ℕ Votes → Type 0
IsNumbered [] = Unit
IsNumbered ((i, po) ∷ m) = (1 ≤ i) × (i < 256) × IsNumbered m

put-IsNumbered :
    (i : ℕ) (v : Votes) (m : Table ℕ Votes)
    → 1 ≤ i
    → i < 256
    → IsNumbered m
    → IsNumbered (put ℕ_discrete i v m)
unfolding put
put-IsNumbered i v [] h k n = (h, k, tt)
put-IsNumbered i v ((j, w) ∷ m) h k n = ground (arith, put-IsNumbered i v m h k n.2)

in_range :
    (id : ℤ)
    → (ltb_ℤ id (pos 1) || leb_ℤ (pos 256) id) ≡ false
    → (1 ≤ pos_part id) × (pos_part id < 256)
in_range (pos n) h = (ground arith, ground arith)
in_range (negsuc n) h = (ground arith, ground arith)

newer-IsKeptOrNewer :
    (o : Option Votes) (v : Votes) → is_newer o v.height ≡ true → IsKeptOrNewer o (some v)
newer-IsKeptOrNewer none v h = tt
newer-IsKeptOrNewer (some p) v h = inr (ground arith)

put-IsKeptOrNewer :
    (i j : ℕ) (v : Votes) (m : Table ℕ Votes)
    → is_newer (get ℕ_discrete i m) v.height ≡ true
    → IsKeptOrNewer (get ℕ_discrete j m) (get ℕ_discrete j (put ℕ_discrete i v m))
put-IsKeptOrNewer i j v m h = rw get-put (elim (ℕ_discrete i j) [
  | yes e ↦ rw (if_pos _ e) (newer-IsKeptOrNewer (get ℕ_discrete j m) v (rw (← e) h))
  | no n ↦ rw (if_neg _ n) (IsKeptOrNewer-refl (get ℕ_discrete j m))
])

module _ (value : List ℕ) (height : ℤ) (account : Address) (staked : ℤ) (m : Table ℕ Votes) where
  abbrev number : ℕ
  number = pos_part (get_id_from_delegated_account_address account)

  abbrev ballot : Votes
  ballot = record { values = value; height = height; staked = staked }

  -- Either nothing changes, or the vote is written for an account that has none as recent.
  save_votes_cases :
      (after m (save_votes value height account staked m) ≡ m)
      ⊎ ((1 ≤ number)
          × (number < 256)
          × (is_newer (get ℕ_discrete number m) height ≡ true)
          × (after m (save_votes value height account staked m) ≡ put ℕ_discrete number ballot m))
  unfolding save_votes get_id_from_delegated_account_address
  save_votes_cases = elim (Bool-cases (length value == 0)) [
    | inl no_value ↦ inl (simp no_value)
    | inr valued ↦ elim (Bool-cases (ltb_ℤ id (pos 1) || leb_ℤ (pos 256) id)) [
      | inl bad ↦ inl (simp (valued, bad))
      | inr good ↦ elim (Bool-cases (is_newer (get ℕ_discrete number m) height)) [
        | inr late ↦ inl (simp (valued, good, late))
        | inl newer ↦
            inr ((in_range id good).0, (in_range id good).1, newer, simp (valued, good, newer))
      ]
    ]
  ]
    where
      id : ℤ
      id = get_id_from_delegated_account_address account

  save_votes_newer :
      (j : ℕ)
      → IsKeptOrNewer
          (get ℕ_discrete j m)
          (get ℕ_discrete j (after m (save_votes value height account staked m)))
  save_votes_newer j = elim save_votes_cases [
    | inl same ↦ rw same (IsKeptOrNewer-refl (get ℕ_discrete j m))
    | inr (lo, hi, newer, written) ↦ rw written (put-IsKeptOrNewer number j ballot m newer)
  ]

  save_votes-IsTable :
      IsTable ℕ_discrete m → IsTable ℕ_discrete (after m (save_votes value height account staked m))
  save_votes-IsTable h = elim save_votes_cases [
    | inl same ↦ rw same h
    | inr (lo, hi, newer, written) ↦ rw written (put-IsTable ℕ_discrete number ballot m h)
  ]

  save_votes-IsNumbered :
      IsNumbered m → IsNumbered (after m (save_votes value height account staked m))
  save_votes-IsNumbered h = elim save_votes_cases [
    | inl same ↦ rw same h
    | inr (lo, hi, newer, written) ↦ rw written (put-IsNumbered number ballot m lo hi h)
  ]

-- On a map with no key twice and keys from 1 to 255, after any ballots each account's vote is the one it had before or comes from a strictly greater
-- height, no account is listed twice, and every key is from 1 to 255.
pub save_all_lem :
    (bs : List Ballot) (m : Table ℕ Votes)
    → IsTable ℕ_discrete m
    → IsNumbered m
    → ((j : ℕ) → IsKeptOrNewer (get ℕ_discrete j m) (get ℕ_discrete j (save_all bs m)))
      × IsTable ℕ_discrete (save_all bs m)
      × IsNumbered (save_all bs m)
unfolding save_all
save_all_lem [] m h k = (λ j. IsKeptOrNewer-refl (get ℕ_discrete j m), h, k)
save_all_lem (b ∷ bs) m h k =
    let (newer, distinct, numbered) =
      save_all_lem bs _ (save_votes-IsTable b.value b.height b.account b.staked m h)
        (save_votes-IsNumbered b.value b.height b.account b.staked m k) in
    (
      λ j.
          IsKeptOrNewer-trans (get ℕ_discrete j m) _ _
            (save_votes_newer b.value b.height b.account b.staked m j) (newer j),
      distinct,
      numbered,
    )
