-- ===== src/Tests/Closing.antt =====
-- The closing of all channels in the small world.
use cronos_stream.Prelude.{String, true, ◌≡◌, refl, [], ◌∷◌, if◌then◌else◌, ◌==◌, string_has_eq}
use cronos_stream.Prelude.Int.{pos}
use cronos_stream.Python.{ok}
use cronos_stream.World.{clock, Trace, World}
use cronos_stream.CloseAll.{
  channel_state, sequencer_private_key, Views, close_via_dual_key, close_one, close_each,
  submit_close,
}
use cronos_stream.CloseAll.Closing.{Confirms, close_via_dual_key-Confirms}
use cronos_stream.Tests.{demo}

-- The first channel is open and funded, the others have expired.
abbrev views : Views
views = record {
  channel_count = λ user. ok 3;
  channel_at = λ user i. ok "0x1";
  stored = λ past channel. ok (record {
    balance = pos 5;
    expiry = if channel == "0x1" then pos 2000 else pos 10;
    sequence = pos 3;
  });
  unique = λ ids. ids;
}

abbrev closed : Trace
closed = (close_each demo views "0xkey" (pos 1000) ("0x1" ∷ []) []).1

first_closes : (close_each demo views "0xkey" (pos 1000) ("0x1" ∷ []) []).0 ≡ ok tt
unfolding close_each close_one close_via_dual_key submit_close
first_closes = refl

-- The owner's account and the sequencer's differ.
abbrev keyed : World
keyed = record demo { account_of = λ key. ok (if key == "0xkey" then "0xU" else "0xS") }

one_closes : (close_via_dual_key keyed views "0xkey" "0x1" (pos 3) []).0 ≡ ok true
unfolding close_via_dual_key submit_close
one_closes = refl

close_via_dual_key-Confirms_example :
    (owner : String) × (sig : String) × (sequencer : String) × (keyed.account_of "0xkey" ≡ ok owner)
    × (keyed.signature_by (clock ∷ []) owner (channel_state "0x1" (pos 3) (pos 1000) [] [])
        ≡ ok sig)
    × (keyed.account_of sequencer_private_key ≡ ok sequencer)
    × Confirms keyed views "0xkey" "0x1"
        (pos 3)
        []
        owner
        sequencer
        sig
        (close_via_dual_key keyed views "0xkey" "0x1" (pos 3) []).1
close_via_dual_key-Confirms_example =
    close_via_dual_key-Confirms keyed views "0xkey" "0x1" (pos 3) [] one_closes
