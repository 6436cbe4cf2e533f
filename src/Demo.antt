-- ===== src/Demo.antt =====
-- demo/cli.py: the interactive demo. It counts the payments that the agent's answers report, and
-- settles the channel after every third. A drawing fails where the library refuses its markup.
pub mod Query
pub mod Prompt
pub mod Keeping
pub mod Uninterrupted
pub mod Settled
pub mod Session
pub mod Balance
use cronos_stream.Prelude.{
  ℕ, suc, String, ◌<>◌, Bool, true, false, not, ◌||◌, Option, none, some, List, [], ◌∷◌, leb, ◌==◌,
  nat_has_eq, string_has_eq, if◌then◌else◌,
}
use cronos_stream.Python.{
  Exn, ok, raised, Dict, insert, lookup, Value, null, int, text, array, object, get, as_text,
  iterate, strip, Action, pure, raise, exception, from_outcome, bind_outcome, ◌>>=◌, ◌>>◌, gets,
  modify, when, choose, catch, contains, occurrences, split_colon, split_lines,
}
use cronos_stream.World.{World, Trace, Effect, Response, post, wait_for_receipt}

abbrev pub sequencer_url : String
sequencer_url = "http://localhost:4001"

abbrev pub payment_threshold : ℕ
payment_threshold = 3

-- What is drawn with a text in it that another program has given, or may have.
pub data Drawing : Type 0 where
  settling refused : (content : String) → Drawing
  submitted confirmed : (hash : Value) → Drawing
  settlement_error request_error : Exn → Drawing
  asking trace_text server_panel : (content : String) → Drawing
  payment_panel : (content : String) (count : ℕ) → Drawing
  plain_panel : (content : Value) → Drawing
  balance_line : Drawing

-- Whether web3 could be imported, and which drawings the library draws: it reads markup in a text,
-- and refuses one that closes what is not open.
pub record Screen : Type 0 where
  pub connected : Bool
  pub draws : Drawing → Bool

-- `rich.errors.ConsoleError` stands for its subclasses, `MarkupError` and `NotRenderableError`.
abbrev pub draw : {S : Type 0} → Screen → Drawing → Action S (Unit {0})
draw screen d = from_outcome (if screen.draws d then ok tt else raised (exception "ConsoleError"))

-- The two globals that change, and the calls made.
pub record Console : Type 0 where
  pub payment_count : ℕ
  pub last_channel_id : Option String
  pub trace : Trace

abbrev pub outward : {A : Type 0} → Effect A → Action Console A
outward m s = let (r, past) = m s.trace in (r, record s { trace = past })

abbrev pub reset_count : Action Console (Unit {0})
reset_count = modify (λ s. record s { payment_count = 0 })

-- One line of the answer's text, entered in `info`.
unfoldable pub read_line : String → Dict String → Dict String
read_line line info = elim (split_colon line) [
  | none ↦ info
  | some sides ↦ insert (strip sides.0) (strip sides.1) info
]

unfoldable pub read_lines : List String → Dict String → Dict String
read_lines [] info = info
read_lines (line ∷ lines) info = read_lines lines (read_line line info)

-- `info`, as the loop over the lines builds it.
unfoldable pub info_of : String → Dict String
info_of content = read_lines (split_lines content) []

-- `_, json_data = content.split("[Server Response]")` takes two pieces.
unfoldable pub has_one_response : String → Bool
has_one_response content =
    not (contains content "[Server Response]") || occurrences content "[Server Response]" == 1

module _ (w : World) (screen : Screen) where
  -- What follows an answer of status 200.
  unfoldable pub await_receipt : Response → Effect (Unit {0})
  await_receipt res = do
    hash ← from_outcome (bind_outcome (res.json) (λ answer. get answer "transactionHash" null))
    draw screen (submitted hash)
    known ← from_outcome (as_text hash)
    status ← wait_for_receipt w known
    draw screen (confirmed hash)

  -- The body of the `try`: the request, and the receipt of the transaction that it gives.
  unfoldable pub request_settlement : String → Effect (Unit {0})
  request_settlement channel_id = do
    res ←
        post w (sequencer_url <> "/channel/finalize") (object (("channelId", text channel_id) ∷ []))
    choose (res.status == 200) (await_receipt res) (draw screen (refused res.body))

  -- Every failure is drawn, and no more; that may fail in its turn.
  unfoldable pub trigger_settlement : String → Effect (Unit {0})
  trigger_settlement channel_id = when screen.connected (do
    draw screen (settling channel_id)
    catch (request_settlement channel_id) (λ e. draw screen (settlement_error e)))

  -- `LAST_CHANNEL_ID` where the condition is truthy.
  unfoldable pub settle_known : Option String → Action Console (Unit {0})
  settle_known none = pure tt
  settle_known (some channel_id) =
      when (not (channel_id == "")) (outward (trigger_settlement channel_id) >> reset_count)

  -- The branch for a text with "Status: PAID".
  unfoldable pub show_payment : String → Action Console (Unit {0})
  show_payment content = do
    modify (λ s. record s {
      payment_count = suc s.payment_count;
      last_channel_id = lookup "Channel" (info_of content);
    })
    s ← gets (λ s. s)
    draw screen (payment_panel content s.payment_count)
    when (not (has_one_response content)) (raise (exception "ValueError"))
    when (contains content "[Server Response]") (draw screen (server_panel content))
    when (leb payment_threshold s.payment_count) (settle_known s.last_channel_id)

  unfoldable pub show_content : String → Action Console (Unit {0})
  show_content content =
      choose (contains content "Status: PAID") (show_payment content)
        (draw screen (plain_panel (text content)))

  -- The "settle" command.
  unfoldable pub settle_command : Action Console (Unit {0})
  settle_command = do s ← gets (λ s. s); settle_known s.last_channel_id
