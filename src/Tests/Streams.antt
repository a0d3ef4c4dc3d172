-- ===== src/Tests/Streams.antt =====
-- Nine bytes in pages of four, the second of which cannot be read.
use rail.Prelude.{◌+◌, ◌≤◌, ◌<◌, ◌≡◌, refl, true, false, [], ◌∷◌, ◌==◌, if◌then◌else◌, arith}
use rail.Result.{ok, fail_message}
use rail.Pages.{StreamGeometry, for_channel}
use rail.Pages.Geometry.{for_channel-fits}
use rail.Pages.Sender.{
  Fabric, PageSender, fill_pooled, fill_one, fill_loop, fill, drain_queue, drain, ship, ship_front,
  ship_ready, run_loop, run, stream,
}
use rail.Pages.Filling.{starts}
use rail.Pages.Receiver.{Shore, PageReceiver, land}
use rail.Pages.Posted.{IsCalm}
use rail.Pages.Agreed.{stream-land}

abbrev geometry : StreamGeometry
geometry = record { window = 2; read_ahead = 2; write_depth = 2 }

abbrev fabric : Fabric
fabric = record {
  page_bytes = 4;
  has_own = λ at size. at == 108;
  acquire = λ n. true;
  submit_read = λ at size. if at == 104 then fail_message "read" else ok tt;
  await_read = λ at size. ok size;
  landed = λ at. ok tt;
}

abbrev shore : Shore
shore = record {
  page_bytes = 4;
  has_home = λ at size. at == 100;
  acquire = λ n. true;
  arrived = λ at. ok tt;
  submit_write = λ at. ok tt;
  await_write = λ at. ok tt;
}

shore-IsCalm : IsCalm shore
shore-IsCalm = record {
  acquires = λ n. refl;
  arrives = λ at. refl;
  submits = λ at. refl;
  writes = λ at. refl;
}

abbrev sender : PageSender
sender = record {
  tag_base = 1000;
  geometry = geometry;
  flip_one_bit = false;
  abort_after_pages = 0;
  refuse_send_after_pages = 0;
  shipped = 0;
  left_unsent = false;
  pooled = 0;
  failure = ok tt;
  prefetch = [];
  in_flight = [];
  sent = [];
}

abbrev receiver : PageReceiver
receiver = record {
  tag_base = 1000;
  geometry = geometry;
  receiving = [];
  writes = [];
  direct = 0;
  copied = 0;
  posted = [];
}

all_tags : (stream fabric sender 100 9).0.sent ≡ (1100, 4) ∷ (1104, 4) ∷ (1108, 1) ∷ []
unfolding stream run run_loop fill fill_loop fill_one fill_pooled drain drain_queue ship ship_front
    ship_ready
all_tags = refl

read_failed : (stream fabric sender 100 9).1 ≡ fail_message "read"
unfolding stream run run_loop fill fill_loop fill_one fill_pooled drain drain_queue ship ship_front
    ship_ready
read_failed = refl

none_unsent : (stream fabric sender 100 9).0.left_unsent ≡ false
unfolding stream run run_loop fill fill_loop fill_one fill_pooled drain drain_queue ship ship_front
    ship_ready
none_unsent = refl

refused_unsent :
    (stream fabric (record sender { refuse_send_after_pages = 1 }) 100 9).0.left_unsent ≡ true
unfolding stream run run_loop fill fill_loop fill_one fill_pooled drain drain_queue ship ship_front
    ship_ready
refused_unsent = refl

stream-land_example :
    starts (stream fabric sender 100 9).0.sent ≡ starts (land shore receiver 100 9).0.posted
stream-land_example =
    stream-land fabric shore sender receiver 100 9 (omega arith) (omega arith) refl refl
      (omega arith) (omega arith) refl refl refl shore-IsCalm none_unsent

for_channel-fits_example :
    (0 < (for_channel 8 16 64).window)
    × ((for_channel 8 16 64).window ≤ 16)
    × (0 < (for_channel 8 16 64).read_ahead)
    × ((for_channel 8 16 64).read_ahead ≤ 64)
    × ((for_channel 8 16 64).window + (for_channel 8 16 64).read_ahead ≤ 8)
    × ((for_channel 8 16 64).write_depth ≤ (for_channel 8 16 64).read_ahead)
for_channel-fits_example =
    for_channel-fits 8 16 64 (omega arith) (omega arith) (omega arith) (omega arith)
