-- ===== src/Voting/Pruned.antt =====
-- Which votes counting, generating, rewinding and resetting leave, and what is generated.
use qwid_node.Base.Int64.{add64}
use qwid_node.Base.{
  Bool, Bool-cases, List, Option, [], ap, append-nil, append_assoc, arith, false, if◌then◌else◌,
  inl, inr, leb, ltb, none, not, refl, some, suc, sym, true, zero, ℕ, ℕ_discrete, ◌&&◌, ◌++◌, ◌+◌,
  ◌<◌, ◌==◌, ◌||◌, ◌∙◌, ◌∷◌, ◌≡◌,
}
use qwid_node.Base.Int.{pos, ℤ}
use qwid_node.Base.Table.{IsTable, Table, delete, get, get-delete, retain}
use qwid_node.Voting.{
  Generated, Votes, VotingState, count_stake, delete_all, delete_from, generate_data, generate_loop,
  is_live, nothing_generated, reset_last_voting, staked_for_value, staked_loop, vote_bytes,
}
use qwid_node.Voting.Thresholds.{votes_for}

-- The keys of the votes that are not live, in the order of the loop.
abbrev pub expired : ℤ → Table ℕ Votes → List ℕ
expired height [] = []
expired height ((i, po) ∷ m) = if is_live height po then expired height m else i ∷ expired height m

abbrev mem : ℕ → List ℕ → Bool
mem k [] = false
mem k (i ∷ is) = i == k || mem k is

get-delete_all :
    (k : ℕ) (is : List ℕ) (m : Table ℕ Votes)
    → get ℕ_discrete k (delete_all is m) ≡ (if mem k is then none else get ℕ_discrete k m)
unfolding delete_all
get-delete_all k [] m = refl
get-delete_all k (i ∷ is) m =
    ground (arith, get-delete_all k is (delete ℕ_discrete i m), get-delete ℕ_discrete i k m)

staked_loop-expired :
    (height : ℤ) (want : List ℕ) (m : Table ℕ Votes) (acc : ℤ) (rm : List ℕ)
    → (staked_loop height want m (acc, rm)).1 ≡ rm ++ expired height m
unfolding staked_loop
staked_loop-expired height want [] acc rm = sym (append-nil rm)
staked_loop-expired height want ((i, po) ∷ m) acc rm = elim (Bool-cases (is_live height po)) [
  | inl live ↦ rw (live, staked_loop) (staked_loop-expired height want m _ rm)
  | inr old ↦
      rw (old, staked_loop)
        (staked_loop-expired height want m acc (rm ++ i ∷ [])
          ∙ append_assoc rm (i ∷ []) (expired height m))
]

abbrev pub live_only : ℤ → Option Votes → Option Votes
live_only height none = none
live_only height (some po) = if is_live height po then some po else none

mem-expired_absent :
    (height : ℤ) (k : ℕ) (m : Table ℕ Votes)
    → get ℕ_discrete k m ≡ none
    → mem k (expired height m) ≡ false
unfolding get
mem-expired_absent height k [] e = refl
mem-expired_absent height k ((i, po) ∷ m) e = ground (arith, mem-expired_absent height k m)

get_unless_expired :
    (height : ℤ) (k : ℕ) (m : Table ℕ Votes)
    → IsTable ℕ_discrete m
    → (if mem k (expired height m) then none else get ℕ_discrete k m)
      ≡ live_only height (get ℕ_discrete k m)
unfolding get
get_unless_expired height k [] h = refl
get_unless_expired height k ((i, po) ∷ m) h = ground (
  arith,
  get_unless_expired height k m h.1,
  mem-expired_absent height k m,
  mem-expired_absent height i m h.0,
)

-- Counting the stake for a value, of either scheme, drops exactly the votes that are not live, and
-- leaves the other scheme's votes.
count_stake_prunes :
    (height : ℤ) (primary : Bool) (want : List ℕ) (s : VotingState) (k : ℕ)
    → IsTable ℕ_discrete (votes_for primary s)
    → let t = (count_stake height primary want s).1 in
      (get ℕ_discrete k (votes_for primary t)
        ≡ live_only height (get ℕ_discrete k (votes_for primary s)))
      × (votes_for (not primary) t ≡ votes_for (not primary) s)
unfolding count_stake staked_for_value
count_stake_prunes height true want s k h = (
  ap (λ (is : List ℕ). get ℕ_discrete k (delete_all is s.votes_encryption1))
        (staked_loop-expired height want s.votes_encryption1 (pos 0) [])
      ∙ get-delete_all k (expired height s.votes_encryption1) s.votes_encryption1
      ∙ get_unless_expired height k s.votes_encryption1 h,
  refl,
)
count_stake_prunes height false want s k h = (
  ap (λ (is : List ℕ). get ℕ_discrete k (delete_all is s.votes_encryption2))
        (staked_loop-expired height want s.votes_encryption2 (pos 0) [])
      ∙ get-delete_all k (expired height s.votes_encryption2) s.votes_encryption2
      ∙ get_unless_expired height k s.votes_encryption2 h,
  refl,
)

-- The live votes, in the order of the loop.
abbrev pub live_votes : ℤ → Table ℕ Votes → Table ℕ Votes
live_votes height = retain (λ i po. is_live height po)

abbrev pub concat_bytes : Table ℕ Votes → List ℕ
concat_bytes [] = []
concat_bytes ((i, po) ∷ m) = vote_bytes i po ++ concat_bytes m

abbrev pub values_of : Table ℕ Votes → List (List ℕ)
values_of [] = []
values_of ((i, po) ∷ m) = po.values ∷ values_of m

generate_loop_lists :
    (height : ℤ) (m : Table ℕ Votes) (g : Generated)
    → let r = generate_loop height m g in
      (r.value_data ≡ g.value_data ++ concat_bytes (live_votes height m))
      × (r.values ≡ g.values ++ values_of (live_votes height m))
      × (r.to_remove ≡ g.to_remove ++ expired height m)
unfolding generate_loop retain
generate_loop_lists height [] g =
    (sym (append-nil g.value_data), sym (append-nil g.values), sym (append-nil g.to_remove))
generate_loop_lists height ((i, po) ∷ m) g = elim (Bool-cases (is_live height po)) [
  | inl live ↦
      let (a, b, c) = generate_loop_lists height m (record g {
        value_data = g.value_data ++ vote_bytes i po;
        values = g.values ++ po.values ∷ [];
        staked = add64 g.staked po.staked;
      }) in
      (
        simp live
            (a ∙ append_assoc g.value_data (vote_bytes i po) (concat_bytes (live_votes height m))),
        simp live (b ∙ append_assoc g.values (po.values ∷ []) (values_of (live_votes height m))),
        simp live c,
      )
  | inr old ↦
      let (a, b, c) =
        generate_loop_lists height m (record g { to_remove = g.to_remove ++ i ∷ [] }) in
      (simp old a, simp old b, simp old (c ∙ append_assoc g.to_remove (i ∷ []) (expired height m)))
]

-- The data for a block lists exactly the live votes, each with its number, height and value, in
-- one order, and the votes that are not live are dropped from the map.
generate_data_lem :
    (height : ℤ) (m : Table ℕ Votes) (k : ℕ)
    → IsTable ℕ_discrete m
    → let (g, m') = generate_data height m in
      (g.value_data ≡ concat_bytes (live_votes height m))
      × (g.values ≡ values_of (live_votes height m))
      × (get ℕ_discrete k m' ≡ live_only height (get ℕ_discrete k m))
unfolding generate_data
generate_data_lem height m k h =
    let (d, v, r) = generate_loop_lists height m nothing_generated in
    (
      d,
      v,
      ap (λ (is : List ℕ). get ℕ_discrete k (delete_all is m)) r
          ∙ get-delete_all k (expired height m) m
          ∙ get_unless_expired height k m h,
    )

get-delete_from :
    (rounds i k : ℕ) (m : Table ℕ Votes)
    → get ℕ_discrete k (delete_from rounds i m)
      ≡ (if leb i k && ltb k (i + rounds) then none else get ℕ_discrete k m)
unfolding delete_from
get-delete_from zero i k m = ground arith
get-delete_from (suc rounds) i k m =
    ground
      (arith, get-delete_from rounds (i + 1) k (delete ℕ_discrete i m), get-delete ℕ_discrete i k m)

-- A reset leaves no vote of any delegated account, for either scheme.
reset_last_voting_lem :
    (s : VotingState) (k : ℕ)
    → k < 256
    → let t = reset_last_voting s in
      (get ℕ_discrete k t.votes_encryption1 ≡ none)
      × (get ℕ_discrete k t.votes_encryption2 ≡ none)
      × (t.after_reset ≡ true)
unfolding reset_last_voting
reset_last_voting_lem s k h = (
  get-delete_from 256 0 k s.votes_encryption1 ∙ ground arith,
  get-delete_from 256 0 k s.votes_encryption2 ∙ ground arith,
  refl,
)
