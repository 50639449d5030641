-- ===== src/Dir/Files.antt =====
-- The data of src/dir.c and src/dir.h, and what it calls. A `FileRecord` lies at an address; `free`
-- adds the address to `freed`. A bstring that is NULL is empty. Allocation is taken to succeed, and
-- who owns a bstring is not modelled.
use mongrel.Prelude.{ℕ, ℤ, Bool, Option, List}
use mongrel.Strings.{Bstring}
use mongrel.Cache.{Cache}

-- the fields of `struct stat` that are read
pub record Stat : Type 0 where
  pub mtime : ℕ
  pub size : ℕ
  pub is_folder : Bool

-- The system calls, and the texts that are made by `strftime`, `bformat` and `MIME_match_ext`.
-- A call that fails is `none`, or a descriptor below 0.
pub record Files (W : Type 0) : Type 0 where
  pub realpath : Bstring → W → Option Bstring × W
  pub stat : Bstring → W → Option Stat × W
  pub open_file : Bstring → W → ℤ × W
  pub time : W → ℕ × W
  pub http_date : ℕ → Option Bstring
  pub content_type : Bstring → Bstring → Option Bstring
  pub etag_of : ℕ → ℕ → Bstring
  pub header_of : Option Bstring → Bstring → ℕ → Bstring → Bstring → Bstring

-- `FileRecord`
pub record FileRecord : Type 0 where
  pub is_dir : Bool
  pub fd : ℤ
  pub users : ℤ
  pub loaded : ℕ
  pub date : Option Bstring
  pub last_mod : Bstring
  pub content_type : Bstring
  pub header : Bstring
  pub request_path : Bstring
  pub full_path : Bstring
  pub etag : Bstring
  pub sb : Stat

-- `Dir`, the fields that do not change, with the setting `limits.dir_max_path`
pub record Dir : Type 0 where
  pub base : Bstring
  pub index_file : Bstring
  pub default_ctype : Bstring
  pub max_dir_path : ℕ

-- The fields of `Dir` that change, the memory of the file records, and what is done to descriptors,
-- the last first. `next` is the address of the next `calloc`.
pub record Store (W : Type 0) : Type 0 where
  pub world : W
  pub heap : ℕ → FileRecord
  pub next : ℕ
  pub cache : Cache ℕ
  pub normalized_base : Option Bstring
  pub freed : List ℕ
  pub closed : List ℤ
