-- ===== src/Lib.antt =====
-- A verification of the pallets of the Massbit chain: the state that each pallet keeps, its calls
-- and hooks, and the properties that make them correct.
--
-- The program. Providers offer gateways and nodes, consumers pay for projects with a quota, and
-- stakers back providers. pallets/dapi keeps projects and providers; pallets/dapi-staking keeps the
-- stakes by provider and era, the ledgers of the stakers, and the reward pool; pallets/block-reward
-- issues a reward in each block; pallets/validator-set picks the validators of a session. The
-- runtime joins them: pallets/dapi registers and unregisters providers through the trait
-- `DapiStaking`, and the payments of projects and the providers' share of block rewards go to
-- `rewards` of pallets/dapi-staking.
--
-- The files. Prelude has the shared names, the Boolean tests, the lemmas on lists and the machine
-- integers. StorageMap and Members are the storage maps and the sets. Dispatch has the origins, the
-- errors and the shape of a call: a function from the state to a result and a state. Currency has
-- what the framework provides: the currency, its imbalances and the fractions, with what is
-- documented of them as laws. Then, by part of the source:
--   pallets/dapi-staking/src/lib.rs: Staking/StakerInfo (the entries of a staker by era) and
--     Staking/Unbonding (the chunks on their way out, and the ledger);
--   pallets/dapi-staking/src/pallet/mod.rs: Staking/State (storage, `update_ledger`,
--     `update_staker_info`), Staking/Calls (the calls), Staking/Registry (`register`,
--     `unregister`), Staking/Eras (`on_initialize`, `rewards`), Staking/Pallet (all of it as steps);
--   pallets/dapi/src/types.rs and pallets/dapi/src/lib.rs: Dapi/State, Dapi/Projects,
--     Dapi/Providers, Dapi/Roles, Dapi/Pallet;
--   pallets/validator-set/src/lib.rs: ValidatorSet/State, ValidatorSet/Candidacy,
--     ValidatorSet/Session, ValidatorSet/Pallet (all of it as steps);
--   pallets/block-reward/src/lib.rs: BlockReward;
--   runtime/local/src/lib.rs: Runtime (the constants, and the pallets joined) and Runtime/System
--     (`construct_runtime!`: all of it in one state, as calls, hooks and changes of the balances);
--   node/src/local/chain_spec.rs: Runtime/Genesis (`testnet_genesis` and the state it builds).
-- Tests has a concrete currency and the examples.
--
-- The model. Functions keep the names of the source. Balances, eras and counters are natural
-- numbers, and the arithmetic is that of the source: `saturating_add` stops at 2 ^ w - 1,
-- `checked_add` may fail, and a plain `+` wraps around, as in a release build. A storage map is a
-- list of entries in the order in which `iter` visits them. The framework in use does not roll
-- storage back when a call fails, so a call that fails returns the state too. No definition needs
-- fuel: all loops run over lists.
--
-- Not modelled: the weights that calls return and the generated weight files, the benchmarks and
-- mock runtimes, the configuration of the framework's own pallets and the runtime APIs, and the node
-- (command line, networking, RPC, the keys of the development chain), which is glue around the
-- framework.
pub mod Prelude
pub mod StorageMap
pub mod Dispatch
pub mod Currency
pub mod Staking
pub mod Members
pub mod Dapi
pub mod ValidatorSet
pub mod BlockReward
pub mod Runtime
pub mod Tests
