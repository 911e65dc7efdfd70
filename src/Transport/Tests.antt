-- ===== src/Transport/Tests.antt =====
-- A trip that succeeds and one with another body of the same length.
use tcabci_read_go_client.Prelude.{◌≡◌, refl, true, false, none, codes}
use tcabci_read_go_client.Decimal.{itoa}
use tcabci_read_go_client.Transport.{Trip, failed, trip_line, round_trip}

abbrev secret : Trip
secret = record {
  url = codes "/v1/tx";
  status = 200;
  body = codes "secret";
  retry = false;
  failure = none;
}

abbrev public_trip : Trip
public_trip = record {
  url = codes "/v1/ns";
  status = 200;
  body = codes "public";
  retry = true;
  failure = none;
}

line : (round_trip true secret).1 ≡ codes "tcabci HTTP status=200 bytes=6 failed=false\n"
unfolding round_trip trip_line failed itoa
line = refl
