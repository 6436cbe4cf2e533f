-- ===== src/Tests/Synchronising.antt =====
-- The small world's manager, new, with a sequencer that knows its channel.
use cronos_stream.Prelude.{String, ◌≡◌, ◌≢◌, refl, [], nat_has_eq, string_has_eq}
use cronos_stream.Prelude.Int.{pos}
use cronos_stream.Python.{as_text, text, int, to_int, ok}
use cronos_stream.World.{World, Response}
use cronos_stream.Channel.{Session}
use cronos_stream.Channel.Ensure.{ensure_channel}
use cronos_stream.Sequencer.{success}
use cronos_stream.Sequencer.Service.{from_state, find_channel, get_channel}
use cronos_stream.Sequencer.Agent.{AllSpelt, Agrees}
use cronos_stream.Sequencer.Agent.Synced.{view_json, ensure_channel-Agrees}
use cronos_stream.Tests.{demo, manager}
use cronos_stream.Tests.Sequencing.{backend, channel, channels}

abbrev answer : Response
answer = record { status = 200; json = ok (view_json (from_state backend channel)); body = "" }

abbrev knowing : World
knowing = record demo { get_reply = λ past url headers. ok answer }

abbrev new_start : Session
new_start = record {
  manager = record manager { sequence_number = int (pos 0); cumulative_amounts = [] };
  trace = [];
}

spelt : AllSpelt backend knowing backend.hex_address channel.recipients
unfolding as_text
spelt = (((λ h. cc), refl, refl), (((λ h. cc), refl, refl), tt))

money : to_int (text "1000") ≡ ok (pos 1000)
unfolding to_int
money = refl

shown : get_channel backend "0xC" channels ≡ success (from_state backend channel)
unfolding get_channel find_channel
shown = refl

known : ◌≢◌ {A = String} "0xC" ""
known h = cc

ensure_channel-Agrees_example :
    ((ensure_channel knowing "seq" "1000" (pos 5000) new_start).0 ≡ ok tt)
    × Agrees backend (ensure_channel knowing "seq" "1000" (pos 5000) new_start).1.manager channel
ensure_channel-Agrees_example =
    ensure_channel-Agrees knowing backend backend.hex_address "seq" "1000" (pos 5000) (pos 1000)
      answer new_start channels spelt (refl, (refl, tt)) money known refl refl refl refl refl shown
      refl refl refl
