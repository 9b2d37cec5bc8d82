-- ===== src/Lib.antt =====
-- spox watches Bitcoin deposits for sBTC and submits the pending claims and withdrawals of the
-- reward-claim registry on Stacks. On every new Bitcoin block two processes run: one updates the
-- monitored deposits from a registry contract, imports their scripts into the node's wallet, and
-- sends the deposits that it finds to Emily; the other reads the pending rows of the reward-claim
-- registry, makes batches of them, and signs and submits one contract call for each batch.
--
-- Methods that read and write a state and may fail are functions from a state to a result and a
-- state (Exec); `?` is their bind. The world outside, which every client call may change, is a type
-- parameter `W` of the models, and the calls of third-party crates are interfaces over it: Signing
-- (hashes, addresses, ECDSA), Sbtc (deposit and reclaim scripts), LruCache, BitcoinApi and Rpc (Bitcoin
-- Core), Http (reqwest), Urls (url), Mailbox and Broadcast (tokio), ConfigCrate and Values (config and
-- serde), and `create_deposit` (Emily). What their documentation promises is a record of laws
-- (IsSigning, IsUrls, IsBounded, IsCounted), which a theorem takes where it needs them.
--
--   Prelude, Result, Exec, Error     shared helpers; src/error.rs
--   Clarity, Principal               Clarity values and ClarityTuple: src/stacks/clarity.rs
--   Claim, Withdrawal                rows, keys and pages: src/stacks/reward_claim_registry.rs
--   Batch                            batch_claims and batch_withdrawals of the same file
--   RewardClaimRegistry              RewardClaimRegistry of the same file; Paging is its loop over
--                                    pages against the walk of cursors, Walks the batches of a walk
--   ContractCalls                    IntoContractCall: src/stacks/transaction.rs and the two batches
--   StacksApi, StacksClient          src/stacks/node.rs: the interface that the other models use,
--                                    and the client that implements it over HTTP; Requests is about
--                                    what it sends
--   StacksWallet                     src/stacks/wallet.rs
--   RewardClaimProcess               src/reward_claim_process.rs; `submit` and `submit_batches` are
--                                    the loops of `process_claims` and `process_withdrawals`, and
--                                    a Submission is a transaction handed to the node, with the
--                                    answer; Setup is RewardClaimState and the whole process
--   Sbtc, Storage                    src/storage; Refinement is the store as a map from scripts
--   AddressRegistry                  src/stacks/registry.rs
--   BitcoinApi, BitcoinWallet        src/bitcoin/mod.rs and src/bitcoin/wallet.rs
--   BitcoinNode                      src/bitcoin/node.rs over the calls of the RPC crate; Connecting
--                                    builds the client from a URL
--   DepositMonitor, DepositProcess   src/deposit_monitor.rs: the monitor, and the loop over blocks;
--                                    Following is about the address registry, and Remembering about
--                                    the deposits that were created in earlier blocks
--   ChainTip                         src/bitcoin/chain_tip.rs; Sending is about the channel
--   Dispatch                         src/dispatch.rs; Schedule interleaves the dispatcher with the
--                                    process that reads the mailbox, and Sources puts the poller and
--                                    the broadcast before it
--   Config                           src/config: the settings, their deserializers and how they are
--                                    read and validated
--   Context                          src/context.rs
--   Program                          src/main.rs: the commands, and the start of the two processes
--   Contracts                        contracts/contracts: what the service reads on Stacks
--     DepositRegistry                registry.clar; History is about its states over time, Serving
--                                    about the client's reads of it, and Watching about the deposit
--                                    loop on a node that runs it
--     LinkedList                     the linked lists of reward-claim-registry.clar and their pages;
--                                    Entries, Tracking, Pages and Listing are what its two lists share
--     Registrations                  its registrations; Runs is about sequences of calls, and Listing
--                                    about the service's batches of claims on a node that runs it
--     WithdrawalIndex                its pending withdrawals; Consistency is about the index as a list
--                                    of entries, and Listing about the service's batches
--   Examples                         a small node and wallet, on which the theorems are run
--
-- Bounds. Nonces, unlocking heights and address ids are 64-bit words, with their wrap-around or
-- their saturation written out; amounts of 128 bits are checked where they are parsed. The loop over
-- pages runs on fuel, as nothing in the code bounds it: an answer of `none` is a loop that still
-- runs, Paging states when the loop ends, and Walks takes the number of pages as its bound. The loop
-- over chunks of address ids runs on as many steps as there are ids, of which each pass takes up to
-- 400. The order in which a `HashMap` is iterated is a parameter, with the hypothesis that each
-- group is visited once.
--
-- Interleavings. The dispatcher and the process that it feeds share a mailbox. A Turn is one turn of
-- the dispatcher's loop with what the process does before it and during it, so that a list of turns is
-- a run of the two; `IsBounded` is what tokio documents of a bounded channel, and `IsCounted` what it
-- documents of a broadcast. A read of a contract takes place at one moment between its begin and its
-- end (`Serves`), before and after which the contract's functions may be called by anyone (`Reach`).
-- The reads of pending rows are for one chain tip, at which the contract has one state.
--
-- Not modelled: logging and tracing, timeouts and the spawning of tasks, JSON and Clarity
-- serialization, the parsing of command-line arguments, and how serde chooses between several faults
-- of one configuration. Of reward-claim-registry.clar: batches of registrations and cancellations, the
-- calls of the signer manager, the list of all registrations and the administration. The other contracts and the web application are separate programs.
pub mod Prelude
pub mod Program
pub mod Principal
pub mod Error
pub mod Result
pub mod Exec
pub mod Clarity
pub mod Claim
pub mod Withdrawal
pub mod Batch
pub mod StacksApi
pub mod StacksClient
pub mod RewardClaimRegistry
pub mod Contracts
pub mod ContractCalls
pub mod StacksWallet
pub mod RewardClaimProcess
pub mod Sbtc
pub mod Storage
pub mod AddressRegistry
pub mod BitcoinApi
pub mod DepositMonitor
pub mod DepositProcess
pub mod Config
pub mod Context
pub mod BitcoinWallet
pub mod ChainTip
pub mod BitcoinNode
pub mod Dispatch
pub mod Examples
