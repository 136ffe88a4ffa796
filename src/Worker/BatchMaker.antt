-- ===== src/Worker/BatchMaker.antt =====
-- worker/src/batch_maker.rs: a worker assembles the transactions of its clients into batches.
-- Beside the loop stand the two handlers of worker/src/worker.rs that feed it.
pub mod Sealed
pub mod Silence
use bullshark_ubuntu.Base.{
  ℕ, ◌==◌, leb, if◌then◌else◌, is_empty, Bool, true, false, Option, none, some, List, [], ◌∷◌, ◌++◌,
  map, length, add_u64,
}
use bullshark_ubuntu.Config.{PublicKey, SocketAddr}
use bullshark_ubuntu.Messages.Header.{Round}
use bullshark_ubuntu.Core.State.{Bytes}
use bullshark_ubuntu.Worker.Messages.{Transaction, Batch, WorkerMessage, batch_message}

-- The fields that never change, and the serialization of messages.
pub record Settings : Type 0 where
  pub batch_size : ℕ
  pub workers_addresses : List (PublicKey × SocketAddr)
  pub serialize : WorkerMessage → Bytes

-- A broadcast of the reliable sender, and a message to the quorum waiter: the batch, and the names
-- that stand beside the cancel handlers.
pub data Effect : Type 0 where
  broadcasts : List SocketAddr → Bytes → Effect
  to_quorum_waiter : Bytes → List PublicKey → Effect

-- The value of the watch channel and whether it is yet unseen, the channel of transactions, the
-- batch under way, and what was sent, oldest first.
pub record BatchMaker : Type 0 where
  pub batch_silent : Round × Bool
  pub changed : Bool
  pub transactions : List Transaction
  pub current_batch : Batch
  pub current_batch_size : ℕ
  pub effects : List Effect

abbrev pub new : BatchMaker
new = record {
  batch_silent = (0, false);
  changed = false;
  transactions = [];
  current_batch = [];
  current_batch_size = 0;
  effects = [];
}

-- `TxReceiverHandler::dispatch`
unfoldable pub arrive : Transaction → BatchMaker → BatchMaker
arrive tx s = record s { transactions = s.transactions ++ tx ∷ [] }

-- `PrimaryReceiverHandler::dispatch` on a `BatchSilent`: an older round is ignored.
unfoldable pub dispatch_silent : Round → Bool → BatchMaker → BatchMaker
dispatch_silent round silent s =
    if leb s.batch_silent.0 round
    then record s { batch_silent = (round, silent); changed = true }
    else s

module _ (c : Settings) where
  unfoldable pub seal : BatchMaker → BatchMaker
  seal s =
      let serialized = c.serialize (batch_message s.current_batch) in
      record s {
        current_batch = [];
        current_batch_size = 0;
        effects =
            s.effects
            ++ broadcasts (map (λ e. e.1) c.workers_addresses) serialized
              ∷ to_quorum_waiter serialized (map (λ e. e.0) c.workers_addresses)
              ∷ [];
      }

  unfoldable pub receive : Transaction → BatchMaker → BatchMaker
  unfolding seal
  receive tx s =
      let t = record s {
        current_batch_size = add_u64 s.current_batch_size (length tx);
        current_batch = s.current_batch ++ tx ∷ [];
      } in
      if leb c.batch_size t.current_batch_size then seal t else t

  -- The `select` with its order: a change of the watch, a transaction, the timer. It waits when none
  -- is ready.
  unfoldable pub select : Bool → BatchMaker → BatchMaker
  unfolding receive
  select expired s = if s.changed then record s { changed = false } else elim s.transactions [
    | tx ∷ rest ↦ receive tx (record s { transactions = rest })
    | [] ↦ if expired then if is_empty s.current_batch then s else seal s else s
  ]

  -- A turn of the loop, with whether the timer has expired.
  unfoldable pub turn : Bool → BatchMaker → BatchMaker
  unfolding select
  turn expired s = if s.batch_silent.1 then record s { changed = false } else select expired s

  pub data Move : Type 0 where
    arrives : Transaction → Move
    dispatches : Round → Bool → Move
    turns : Bool → Move

  unfoldable pub move : Move → BatchMaker → BatchMaker
  unfolding arrive dispatch_silent turn
  move (arrives tx) s = arrive tx s
  move (dispatches round silent) s = dispatch_silent round silent s
  move (turns expired) s = turn expired s

  unfoldable pub run : List Move → BatchMaker → BatchMaker
  unfolding move
  run [] s = s
  run (m ∷ ms) s = run ms (move m s)
