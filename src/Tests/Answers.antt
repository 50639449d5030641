-- ===== src/Tests/Answers.antt =====
-- Runs of requests, of the answers to them, and of the poll of descriptors.
use mongrel.Prelude.{
  ℕ, ◌+◌, ◌≡◌, refl, pos, Bool, true, false, none, some, List, [], ◌∷◌, text, decimal,
  if◌then◌else◌, arith,
}
use mongrel.Register.{Register, id_for_fd}
use mongrel.Request.{Headers, Request, Callback}
use mongrel.Request.Payload.{Replace, to_payload, parse, headers_text, ◌>>=◌}
use mongrel.Request.Payload.Netstring.{parse-to_payload}
use mongrel.Dir.Files.{FileRecord}
use mongrel.Dir.Answer.{Reply, http_304, Clock, calculate_response}
use mongrel.Dir.Answer.Decision.{calculate_response_decides}
use mongrel.Dir.Serve.{Socket, int_of_size, stream_file}
use mongrel.Dir.Serve.Sends.{Sending, stream_file_sends}
use mongrel.SuperPoll.{Item, EpollEvent, SuperPoll, Kernel, Polled, poll_loop, idle_loop}
use mongrel.SuperPoll.Hot.{count_if, waiting, hitting, poll_loop_takes_ready}
use mongrel.SuperPoll.Idle.{slots, slots-idle_loop}
use mongrel.Tests.Samples.{strings}

abbrev pub no_headers : Headers ℕ
no_headers = record {
  empty = 0;
  insert = λ f v h. h + 1;
  lookup = λ f h. none;
  entries = λ h. [];
  atoi = λ s. pos 0;
}

abbrev pub blank : Request ℕ
blank = record {
  method = some (text "GET");
  version = none;
  uri = none;
  path = some (text "/a");
  query_string = none;
  fragment = none;
  host = none;
  host_name = none;
  pattern = none;
  target_host = none;
  action = none;
  headers = 0;
  status_code = 0;
  response_size = pos 0;
  content_len = pos 0;
  json_sent = false;
}

abbrev some_callbacks : List Callback
some_callbacks = Callback.path_cb (text "/b") ∷ Callback.header_field (text "A") (text "b") ∷ []

abbrev replace : Replace
replace = record { bfindreplace = λ s f r. s }

abbrev all_three : Register
all_three = record {
  registrations = λ fd. record { conn_type = 1; id = 3; last_ping = 0 };
  reg_count = 4;
  reg_id_to_fd = λ id. 7;
  closed = [];
}

parse-to_payload_example :
    (to_payload no_headers replace all_three blank (text "uuid") 7 (text "body") >>= parse)
    ≡ some (record {
      sender = text "uuid";
      conn_id = decimal 3;
      path = text "/a";
      headers = headers_text no_headers replace blank;
      body = text "body";
    })
unfolding id_for_fd
parse-to_payload_example =
    parse-to_payload no_headers replace all_three blank (text "uuid") 7 3 (text "body") refl refl
      refl

abbrev small_file : FileRecord
small_file = record {
  is_dir = false;
  fd = pos 9;
  users = pos 1;
  loaded = 0;
  date = none;
  last_mod = [];
  content_type = [];
  header = text "header";
  request_path = [];
  full_path = [];
  etag = text "5-3";
  sb = record { mtime = 5; size = 3; is_folder = false };
}

-- a request with If-None-Match: *
abbrev star_headers : Headers ℕ
star_headers = record no_headers {
  lookup =
      λ f h. if mongrel.Tst.Insert.same_key f (text "If-None-Match") then some (text "*") else none;
}

abbrev pub clock : Clock
clock = record { date_of = λ s. none }

calculate_response_decides_example :
    calculate_response star_headers strings clock (text "v") blank (some small_file) 0
    ≡ (some http_304, record blank { status_code = 304 })
unfolding mongrel.Dir.Answer.Decision.decide_reply mongrel.Dir.Answer.get_date
calculate_response_decides_example =
    calculate_response_decides star_headers strings clock (text "v") blank small_file 0 refl

-- each call sends one byte
abbrev pub slow : Socket ℕ
slow = record {
  send = λ s w. (pos 6, w);
  fdwait = λ w. (0, w);
  dir_send = λ fd offset block w. (pos 1, (offset + 1, w));
}

slow-Sending : Sending slow 16 small_file
slow-Sending = record { writable = λ w. refl; moves = λ offset w l. (0, refl, refl, omega arith) }

stream_file_sends_example : (w : ℕ) × (stream_file slow 16 small_file 0 ≡ some (int_of_size 3, w))
stream_file_sends_example = stream_file_sends slow 16 small_file 0 refl slow-Sending

abbrev kernel : Kernel ℕ
kernel = record {
  epoll_ctl = λ op fd node w. ((true, false), w);
  epoll_wait = λ w. (some [], w);
  zmq_poll = λ items ms w. ((some 1, false), ([], w));
}

abbrev item : ℕ → ℕ → Item
item fd revents = record { fd = pos fd; socket = none; events = 1; revents = revents; data_of = fd }

abbrev poller : SuperPoll
poller = record {
  hot = item 3 0 ∷ item 4 1 ∷ item 5 0 ∷ [];
  max_hot = 4;
  idle_fd = pos 3;
  max_idle = 2;
  idle_data = λ n. record { fd = pos 8; data_of = 8 };
  idle_free = 0 ∷ [];
  idle_active = 1 ∷ [];
}

poll_loop_takes_ready_example :
    (r : Polled kernel) × (poll_loop kernel 1 [] poller.hot [] false poller 0 ≡ some r)
    × (r.failed ≡ false)
    × ((p : Item → Bool) → count_if p r.left ≡ count_if (waiting kernel p) poller.hot)
    × ((p : Item → Bool) → count_if p r.hits ≡ 0 + count_if (hitting kernel p) poller.hot)
poll_loop_takes_ready_example =
    poll_loop_takes_ready kernel 1 [] poller.hot [] false poller 0 refl refl refl

abbrev one_event : List EpollEvent
one_event = record { node = 1; readable = true; writable = false } ∷ []

slots-idle_loop_example : slots kernel (idle_loop kernel one_event 0 [] poller 0).1.1.0 1 ≡ 1
slots-idle_loop_example = slots-idle_loop kernel one_event 0 [] poller 0 1 (λ m. omega arith)
