-- ===== src/Tests/Scripting.antt =====
-- The smaller scripts in the small world.
use cronos_stream.Prelude.{◌≡◌, refl, [], ◌∷◌, string_has_eq}
use cronos_stream.Prelude.Int.{ℤ, pos, ◌+ℤ◌}
use cronos_stream.Python.{Dict, Value, int, ok, add_one}
use cronos_stream.Channel.Voucher.{create_voucher, voucher_of}
use cronos_stream.CloseAll.{Stored, Views, close_one}
use cronos_stream.Scripts.Listing.{listed_status, list_from, list_channels}
use cronos_stream.Scripts.Listing.Laws.{closing, close_one-listed_status}
use cronos_stream.Scripts.Reuse.{two_vouchers}
use cronos_stream.Tests.{demo, manager, start}

abbrev funded : Stored
funded = record { balance = pos 5; expiry = pos 2000; sequence = pos 3 }

abbrev one_channel : Views
one_channel = record {
  channel_count = λ user. ok 1;
  channel_at = λ user i. ok "0x1";
  stored = λ past channel. ok funded;
  unique = λ ids. ids;
}

listed :
    (list_channels one_channel [] "0xU" (pos 1000) []).1
    ≡ record { index = 0; status = "OPEN"; channel = "0x1"; stored = funded } ∷ []
unfolding list_channels list_from listed_status
listed = refl

close_one-listed_status_example :
    close_one demo one_channel "0xkey" (pos 1000) "0x1" []
    ≡ closing demo one_channel "0xkey" "0x1" funded (listed_status funded (pos 1000)) []
close_one-listed_status_example =
    close_one-listed_status demo one_channel "0xkey" "0x1" (pos 1000) [] funded refl

abbrev issued_at : ℤ → ℤ → ℤ → Dict Value
issued_at n amount total =
    voucher_of (record manager { sequence_number = int n }) "0xU" amount (pos 1000) "0xsig" total

two_issued :
    (two_vouchers demo "0xU" start).0
    ≡ ok (
      issued_at (pos 5) (pos 1000000) (pos 1000000),
      issued_at (pos 6) (pos 2000000) (pos 3000000),
    )
unfolding two_vouchers create_voucher add_one voucher_of ◌+ℤ◌
two_issued = refl
