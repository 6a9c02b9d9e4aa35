-- ===== src/Node/Chain/Minting.antt =====
-- The sum of all balances over a block (`add_block` of core/blockchain.py).
use absolute_blockchain_ulti.Base.{
  ℕ, ◌+◌, ◌≤◌, ◌≡◌, refl, Bool, true, none, some, List, [], ◌∷◌, ok, nat_eq, arith, All,
}
use absolute_blockchain_ulti.Base.Int.{ℤ, pos, pos_part, ◌≤ℤ◌, int_laws, ltb_ℤ}
use absolute_blockchain_ulti.Node.Strings.{Strings, non_empty}
use absolute_blockchain_ulti.Node.Tables.{Transaction, Block, Connection}
use absolute_blockchain_ulti.Node.Db.Accounts.{get_total_supply, commit}
use absolute_blockchain_ulti.Node.Chain.State.{Node, Config, Chain}
use absolute_blockchain_ulti.Node.Chain.Checks.{evm_of}
use absolute_blockchain_ulti.Node.Chain.Apply.{apply_transaction, apply_block_reward, reward_of}
use absolute_blockchain_ulti.Node.Chain.Supply.{
  supply_of-apply_balance_delta, IsBurnRate, supply_of-pay,
}
use absolute_blockchain_ulti.Node.Chain.Transfer.{
  get_total_supply-apply_transaction, apply_transaction_burned,
}
use absolute_blockchain_ulti.Node.Chain.Accepted.{
  add_block-IsAccepted, accepted_found, stored, rewarded, burn_target, IsAccepted,
}
use absolute_blockchain_ulti.Node.Chain.Add.{add_block, sealed, run_on_returned, apply_transactions}
use absolute_blockchain_ulti.Node.Db.Blocks.{get_block}
use absolute_blockchain_ulti.Node.Db.Persist.{persist_block_locked}
use absolute_blockchain_ulti.Node.Db.Frame.{accounts-persist_block_locked}

-- A transaction without a contract, of an amount and a gas limit that are not negative.
abbrev pub IsPlain : Node → Transaction → Type 0
IsPlain node tx = (evm_of node tx ≡ none) × (pos 0 ≤ℤ tx.value) × (pos 0 ≤ℤ tx.gas)

-- Fees are burnt into an account.
abbrev pub HasBurnAccount : Config → Type 0
HasBurnAccount config = non_empty config.burn_address ≡ true

pub get_total_supply-apply_transactions :
    (node : Node) (height miner : ℕ) (txs : List Transaction) (c c' : Connection)
    (r : List Transaction × ℤ)
    → IsBurnRate node.config
    → HasBurnAccount node.config
    → All (IsPlain node) txs
    → apply_transactions node height miner txs c ≡ (ok r, c')
    → (get_total_supply c' ≡ get_total_supply c) × (pos 0 ≤ℤ r.1)
unfolding apply_transactions
get_total_supply-apply_transactions node height miner [] c c' r rate account plain h = ground arith
get_total_supply-apply_transactions node height miner (tx ∷ txs) c c' r rate account plain h =
    let (tx', m, e, k) = run_on_returned (apply_transaction node true tx height miner c) _ r c' h in
    let (s, m', e', k') = run_on_returned (apply_transactions node height miner txs m) _ r c' k in
    let p = plain.0 in
    let first =
      get_total_supply-apply_transaction node true tx tx' height miner c m rate p.1 p.2 p.0 e in
    let rest =
      get_total_supply-apply_transactions node height miner txs m m' s rate account plain.1 e' in
    grind (
      int_laws,
      first,
      rest,
      apply_transaction_burned node true tx tx' height miner c m rate p.2 p.0 e,
    )

pub get_total_supply-apply_block_reward :
    (config : Config) (miner : ℕ) (c : Connection)
    → get_total_supply (apply_block_reward config true miner c).1
      ≡ get_total_supply c + reward_of config c
unfolding apply_block_reward get_total_supply
get_total_supply-apply_block_reward config miner c =
    ground (arith, supply_of-pay true miner (pos (reward_of config c)) c)

-- The reward of a block never takes the sum of all balances above the maximal supply, if it was
-- not above before.
pub apply_block_reward_bounded :
    (config : Config) (miner : ℕ) (c : Connection)
    → get_total_supply c ≤ config.max_supply
    → get_total_supply (apply_block_reward config true miner c).1 ≤ config.max_supply
unfolding reward_of
apply_block_reward_bounded config miner c h =
    ground (arith, get_total_supply-apply_block_reward config miner c)

-- The writes of `_persist_block_locked` pay the burnt fees into their account.
get_total_supply-persist_block_locked :
    (str : Strings) (now : ℕ) (b : Block) (txs : List Transaction) (burned : ℤ) (target : ℕ)
    (c : Connection)
    → pos 0 ≤ℤ burned
    → (ltb_ℤ (pos 0) burned ≡ true → non_empty target ≡ true)
    → get_total_supply (persist_block_locked str now b txs burned target c)
      ≡ get_total_supply c + pos_part burned
unfolding get_total_supply
get_total_supply-persist_block_locked str now b txs burned target c h k =
    rw (accounts-persist_block_locked str now b txs burned target c)
      (ground (arith, k, supply_of-apply_balance_delta target burned c.live.accounts))

burn_target_set :
    (node : Node) (b : Block)
    → HasBurnAccount node.config
    → ltb_ℤ (pos 0) b.total_burned ≡ true
    → non_empty (burn_target node b) ≡ true
burn_target_set node b h k = ground (arith, h, k)

same_reward :
    (config : Config) (c c' : Connection)
    → get_total_supply c' ≡ get_total_supply c
    → reward_of config c' ≡ reward_of config c
unfolding reward_of
same_reward config c c' h = rw h refl

accepted_total :
    (node : Node) (now : ℕ) (preserve : Bool) (block : Block) (chain chain' : Chain)
    (a : IsAccepted node now preserve block chain chain')
    → HasBurnAccount node.config
    → get_total_supply a.middle ≡ get_total_supply chain.db
    → pos 0 ≤ℤ a.done.1
    → get_total_supply chain'.db
      ≡ get_total_supply chain.db + reward_of node.config chain.db + pos_part a.done.1
unfolding commit sealed get_total_supply
accepted_total node now preserve block chain chain' a account h k =
    let b = stored node now preserve block chain a.done a.middle in
    let c = rewarded node now preserve block chain a.middle in
    rw a.written (
      omega (
        arith,
        h,
        same_reward node.config chain.db a.middle h,
        get_total_supply-apply_block_reward node.config block.miner a.middle,
        get_total_supply-persist_block_locked node.services.strings now b b.transactions
            b.total_burned (burn_target node b) c k (burn_target_set node b account),
      ))

-- An accepted block makes the sum of all balances grow by its reward and, once more than is paid
-- for, by the fees that it burnt: they are credited to the burn address with each transaction, and
-- again with the block. The transactions are without contracts, their amounts and gas limits are
-- not negative, the burn rate is between 0 and 1 and the burn address is set.
pub get_total_supply-add_block :
    (node : Node) (now : ℕ) (preserve : Bool) (block : Block) (chain chain' : Chain)
    → IsBurnRate node.config
    → HasBurnAccount node.config
    → All (IsPlain node) block.transactions
    → add_block node now preserve block chain ≡ (true, chain')
    → (b : Block) × (get_block block.height chain'.db ≡ some b)
      × (get_total_supply chain'.db
          ≡ get_total_supply chain.db + reward_of node.config chain.db + pos_part b.total_burned)
unfolding sealed
get_total_supply-add_block node now preserve block chain chain' rate account plain h =
    let a = add_block-IsAccepted node now preserve block chain chain' h in
    let b = stored node now preserve block chain a.done a.middle in
    let before =
      get_total_supply-apply_transactions node block.height block.miner block.transactions chain.db
        a.middle a.done rate account plain a.applied in
    (
      b,
      accepted_found node now preserve block chain chain' a,
      (accepted_total node now preserve block chain chain' a account before.0 before.1),
    )
