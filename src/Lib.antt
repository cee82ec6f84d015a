-- ===== src/Lib.antt =====
-- The client of the Tenderize stake pool: the class TenderizeProgram of experiment/tenderize.ts;
-- the command line over it, experiment/cli.ts; and the other end of its instructions,
-- StakePoolInstruction::deserialize of program/src/instruction.rs. Beside them, parts of the web
-- application that share no state with them: its instruction builders (src/models/lending), its
-- Ledger wallet (src/wallet-adapters/ledger), its cache of accounts
-- (src/contexts/accounts.tsx, src/utils/eventEmitter.ts), the accounts that it observes
-- (src/contexts/market.tsx), what a user does with it (src/actions), which uses the builders and the
-- cache, and the inputs that call the actions with a part of a balance (src/components).
--
-- Parts. The pool keeps lamports in a reserve. The client delegates them to validators in stake
-- accounts, whose addresses are derived from a validator, the pool and an index; it merges stakes,
-- stops them, and pays the creditors of the pool. Each method reads accounts through a connection,
-- builds instructions, and sends them in a transaction.
--
-- Files.
--   Prelude          Boolean tests, lists on native numbers, lemmas on both (Tests, Lists)
--   Effect           errors, results, actions on a session, try/catch; Effect.Ensures has the rules
--                    for preconditions, postconditions and errors
--   Buffer           the Buffer of Node: writes and reads at an offset, little endian (Bytes, Writes)
--   Web3             @solana/web3.js and lodash, as parameters; bn.js and buffer-layout are those of Web.Layout
--   OnChain          program/src/instruction.rs: deserialize and its records (Items)
--   Pool.Types       the interfaces of experiment/tenderize.ts and the fields of the class
--   Pool.Client      the derived addresses; a session: the network and the transactions sent so far
--   Pool.Instructions, Pool.Batches   the ...Instruction methods
--   Pool.Accounts, Pool.Reading       parseState, readState, readValidators, readCreditors
--   Pool.Sending     the methods that send one transaction
--   Pool.Delegation  delegateReserveBatch (Shares, Plan, Free, Batch)
--   Pool.Merging     mergeAllStakes (Pairs)
--   Pool.Unstaking   unstake, unstakeAll (Plan)
--   Pool.Paying      payAllCreditors, updatePool (Ends)
--   Pool.Wire        what the on-chain program reads from the instructions
--   Pool.Signed      who signs what the client sends (Keys, Methods, Payments)
--   Cli              `run` of experiment/cli.ts, over the methods of the client: Steps; Deposits and
--                    Signed have proofs
--   Ledger           core.ts: Bits, Path (the derivation path), Device (ledgerSend and the requests made
--                    of it), Delivery; Adapter is the class of src/wallet-adapters/ledger/index.tsx, and
--                    its Released, Phases, Orderly and Stranded have proofs
--   Web              src/models/lending: the deposit, withdraw and credit builders of the web
--                    application, over src/utils/layout.ts (Layout, Builders, RoundTrip); TenderizeParser over
--                    the decoders of src/utils/layout.ts (Decode), and TenderizeProvider of
--                    src/contexts/tenderize.tsx (Provider); Hex, Numbers and Agreement have proofs
--   JsMap            the Map of JavaScript, for the web application
--   Cache            src/contexts/accounts.tsx: Tokens (what is made of decoded layouts), Store (the
--                    maps, the parsers, the events), Methods (`cache` and the answers of the network),
--                    Steps (what can happen, in any order), Emitter (src/utils/eventEmitter.ts), Multiple
--                    (getMultipleAccounts, refreshAccounts, chunks), Users (the token accounts of a
--                    user); the other files have proofs
--   Market           src/contexts/market.tsx: Subscriptions (subscribeToMarket, precacheMarkets), Counts
--                    and Reachable (proofs)
--   Actions          src/actions: Wallet (the arrays of an action, sendTransaction of
--                    src/contexts/connection.tsx), Accounts (src/actions/account.ts and approve of
--                    src/models/account.ts), Flows (deposit, withdraw, credit); Stage, Prepared and Asked
--                    have proofs
--   Balance          src/hooks/useUserBalance.ts, src/components/WithdrawInput and DepositInput: what a
--                    click does, over Actions; Sorting, Sorted, Confirmed and Clicked have proofs
--   Examples         a small network, and the theorems at concrete inputs
--
-- Numbers. The amounts of SOL on the command line are whole; 0.9 of the reserve, rounded, is a
-- parameter. The numbers of the source are exact naturals here; a double is exact below 2 ^ 53, which
-- all lamports and indices are unless a sum passes it. Number(...) of a bigint rounds to 53 bits,
-- as to_number does, and so does the sum of a user's balance. A write of a number that does not fit its field is the RangeError of Node.
-- The amounts of deposits, withdrawals and credits have a sign. toNumber() of bn.js is an error from
-- 2 ^ 53 on. The differences of the source that are taken stay at or
-- above zero by the tests in front of them.
--
-- Network. The reply to a request and the state that it leaves are parameters, so a theorem about
-- all of them holds whatever others do in between. A refused request is a thrown error.
--
-- The web application. An address in base 58 is a number here, and a Map has them as keys. A promise is
-- a number too: the state has what was asked for and what each promise was settled with, so calls and
-- answers come in any order. A parser is a function with a number that stands for its identity. The
-- layouts of @solana/spl-token, the decoding of base 64 and the call getMultipleAccounts of a node are
-- parameters. What
-- subscribeToMarket returns is called once at most, as the hooks do. The arrays that an action fills are
-- part of its state; while it awaits a reply, others may change the cache. Token's instructions are
-- the data of their arguments, and who signs them is a parameter with laws.
--
-- An input takes its amount by percent, where that is a whole number of lamports; with a fraction, or
-- an amount that is typed in, there is no result here. A transport of the Ledger wallet leads to one
-- device, which has one key.
--
-- Fuel. The loop of payAllCreditors has a round for each creditor and one more, which is enough
-- while nobody adds a creditor. The loop of ledgerSend has a round for each byte of the payload,
-- and each round takes 255 of them. All other loops run over a list or up to a count.
--
-- Not modelled: printing, the options of requests, the callback of readState, the reading of the
-- options of experiment/cli.ts, the on-chain processor (program/src/processor.rs), and the rest of
-- the web application under src: other React code, other wallets, the hooks around the cache, prices,
-- and rustString of src/utils/layout.ts.
-- A Ledger account or change is a natural number; harden reduces it to 32 bits as the bitwise
-- operators do.
pub mod Prelude
pub mod Effect
pub mod Buffer
pub mod OnChain
pub mod Web3
pub mod Pool
pub mod Ledger
pub mod Web
pub mod JsMap
pub mod Cache
pub mod Market
pub mod Actions
pub mod Balance
pub mod Cli
pub mod Examples
