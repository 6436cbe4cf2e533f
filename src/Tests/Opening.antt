-- ===== src/Tests/Opening.antt =====
-- `ensure_channel` in the small world.
use cronos_stream.Prelude.{
  String, ◌≡◌, ◌≢◌, refl, List, [], ◌∷◌, eq_iff, true, false, string_has_eq,
}
use cronos_stream.Prelude.Int.{ℤ, pos}
use cronos_stream.Python.{get, text, ok, to_int}
use cronos_stream.World.{World, Response}
use cronos_stream.Channel.Close.{close_channel}
use cronos_stream.Channel.Ensure.{ensure_channel}
use cronos_stream.Channel.Ensure.Strict.{SeedsOnlyConfirmed, ensure_channel-SeedsOnlyConfirmed}
use cronos_stream.Channel.Ensure.Sync.{channel_view}
use cronos_stream.Tests.{demo, manager, start}

amount_read : to_int (text "5000000") ≡ ok (pos 5000000)
unfolding to_int
amount_read = refl

ensure_channel-SeedsOnlyConfirmed_example :
    SeedsOnlyConfirmed demo "seq"
      (pos 5000000)
      (pos 9)
      start
      (ensure_channel demo "seq" "5000000" (pos 9) start).1
ensure_channel-SeedsOnlyConfirmed_example =
    ensure_channel-SeedsOnlyConfirmed demo "seq" "5000000" (pos 9) (pos 5000000) start amount_read

abbrev listed : List (String × ℤ)
listed = ("0xA", pos 30) ∷ []

abbrev view : Response
view = record { status = 200; json = ok (channel_view (pos 8) listed); body = "" }

-- A sequencer that knows the channel.
abbrev knowing : World
knowing = record demo { get_reply = λ past url headers. ok view }

named : ◌≢◌ {A = String} "0xA" ""
named h = let k : false ≡ true = (eq_iff "0xA" "").1 h in cc

known : manager.channel_id ≢ ""
known h = let k : false ≡ true = (eq_iff "0xC" "").1 h in cc

settled : (close_channel demo "seq" start).0 ≡ ok true
unfolding close_channel get
settled = refl
