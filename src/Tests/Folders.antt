-- ===== src/Tests/Folders.antt =====
-- Runs of the static directories, of a request's message, and of the poll of descriptors.
use mongrel.Prelude.{
  ℕ, ◌+◌, ◌<◌, ◌≡◌, pos, true, false, none, some, List, [], text, count, ◌==◌, if◌then◌else◌, arith,
}
use mongrel.Strings.{Bstring}
use mongrel.Tst.Insert.{is_prefix}
use mongrel.Cache.{create, lookup, lookup_loop, add, min_index}
use mongrel.Cache.Holds.{cached}
use mongrel.Dir.Files.{Files, FileRecord, Dir, Store, Stat}
use mongrel.Dir.Find.{
  resolve_file, lazy_normalize_base, cache_check, resolve_new, target_of, open_target, find_file,
  describe, with_cache, release_all, release,
}
use mongrel.Dir.Requests
use mongrel.Dir.Requests.{
  Step, Reach, serve, start-Counted, Reach-counts_users, Reach-stays_under_base,
}
use mongrel.Dir.Serve.{serve_file}
use mongrel.Dir.Serve.Holds.{Returns, serve_file_gives_back}
use mongrel.Tests.Answers.{no_headers, clock, slow, blank}
use mongrel.Tests.Samples.{strings}

abbrev folder_sb : Stat
folder_sb = record { mtime = 5; size = 3; is_folder = false }

-- all paths are real, and lead to the same file of three bytes
abbrev files : Files ℕ
files = record {
  realpath = λ path w. (some path, w);
  stat = λ path w. (some folder_sb, w);
  open_file = λ path w. (pos 9, w);
  time = λ w. (w, w + 1);
  http_date = λ t. some (text "date");
  content_type = λ path def. some def;
  etag_of = λ mtime size. text "5-3";
  header_of = λ date ctype size last_mod etag. text "header";
}

abbrev web : Dir
web = record {
  base = text "web/";
  index_file = text "index.html";
  default_ctype = text "text/plain";
  max_dir_path = 256;
}

abbrev no_file : FileRecord
no_file = record {
  is_dir = false;
  fd = pos 9;
  users = pos 0;
  loaded = 0;
  date = none;
  last_mod = [];
  content_type = [];
  header = text "header";
  request_path = [];
  full_path = [];
  etag = text "5-3";
  sb = folder_sb;
}

-- one request for "/a", from an empty cache of two files
abbrev first_file : List ℕ × Store ℕ
first_file =
    let s = Requests.start 1 0 (λ a. no_file) in
    let r = resolve_file files strings web (text "/") (text "/a") s in
    (serve files strings web r.0 [], r.1)

one_request : Reach files strings web 1 0 (λ a. no_file) first_file.0 first_file.1
one_request =
    Reach.steps Reach.starts
      (Step.begins (text "/") (text "/a") [] (Requests.start 1 0 (λ a. no_file)))

first_made : 0 < first_file.1.next
unfolding resolve_file lazy_normalize_base cache_check resolve_new target_of open_target find_file
    describe with_cache release_all Requests.start create lookup lookup_loop add min_index release
first_made = ground arith

Reach-counts_users_example :
    ((first_file.1.heap 0).users ≡ pos (count 0 first_file.0 + cached 0 first_file.1.cache))
    × (count 0 first_file.1.freed
        ≡ (if count 0 first_file.0 + cached 0 first_file.1.cache == 0 then 1 else 0))
Reach-counts_users_example =
    Reach-counts_users files strings web 1 0 (λ a. no_file) first_file.0 first_file.1 0 one_request
      first_made

Reach-stays_under_base_example :
    (base : Bstring) × (first_file.1.normalized_base ≡ some base)
    × (is_prefix base (first_file.1.heap 0).full_path ≡ true)
    × ((asked : Bstring) × (v : ℕ) × ((files.realpath asked v).0
          ≡ some (first_file.1.heap 0).full_path))
Reach-stays_under_base_example =
    Reach-stays_under_base files strings web 1 0 (λ a. no_file) first_file.0 first_file.1 0
      one_request first_made

serve_file_gives_back_example : Returns slow 16 files no_headers strings clock (text "v") web [] (
    serve_file slow 16 files no_headers strings clock
      (text "v")
      web
      (text "/")
      (text "/a")
      blank
      (Requests.start 1 0 (λ a. no_file)))
serve_file_gives_back_example =
    serve_file_gives_back slow 16 files no_headers strings clock (text "v") web [] (text "/")
      (text "/a") blank (Requests.start 1 0 (λ a. no_file))
      (start-Counted files strings web 1 0 (λ a. no_file))
