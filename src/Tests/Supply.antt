-- ===== src/Tests/Supply.antt =====
-- The reward of a block on a concrete supply.
use qwid_node.Base.{arith, some, ◌*◌, ◌+◌, ◌-◌, ◌/◌, ◌≡◌, ◌≤◌}
use qwid_node.Base.Int.{pos}
use qwid_node.Supply.{get_reward, get_reward_lem, scale}

-- A total of 2.3e17, a ratio of 2e-8 and a supply of 2e17.
get_reward_lem_example :
    (get_reward (pos 230_000_000_000_000_000) (pos 200) (pos 200_000_000_000_000_000)
      ≡ some
          (pos (((230_000_000_000_000_000 - 200_000_000_000_000_000) * 200 + scale / 2) / scale)))
    × (((230_000_000_000_000_000 - 200_000_000_000_000_000) * 200 + scale / 2) / scale
        ≤ 230_000_000_000_000_000 - 200_000_000_000_000_000)
get_reward_lem_example =
    get_reward_lem 230_000_000_000_000_000 200 200_000_000_000_000_000 (omega arith) (omega arith)
      (omega arith)
