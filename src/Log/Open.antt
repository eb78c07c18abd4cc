-- ===== src/Log/Open.antt =====
-- src/storage/log.c: log_open and what it does to a file without the marks of a frame. The calls that
-- open, sync and rename a file succeed; a key is its bytes.
pub mod Migrate
pub mod Mode
pub mod Torn
use aegisdb.Prelude.{
  ℕ, zero, suc, ◌+◌, Bool, true, false, Option, none, some, List, [], ◌++◌, ◌&&◌, not, ◌==◌, ltb,
  leb, if◌then◌else◌, length, take, drop,
}
use aegisdb.Bytes.{get_u32le}
use aegisdb.Crc32.{crc32_compute}
use aegisdb.Aead.{Aead}
use aegisdb.Log.{
  LogFile, log_frame_magic, log_frame_magic_enc, aead_tag_len, header_len, frame_overhead,
  read_full, build_header, parse_header_v3,
}
use aegisdb.Log.Read.{open_frame}

pub data LogOpenStatus : Type 0 where
  log_open_ok : LogOpenStatus
  log_open_err_io : LogOpenStatus
  log_open_err_key_on_plain : LogOpenStatus
  log_open_err_plain_on_enc : LogOpenStatus
  log_open_err_wrong_key : LogOpenStatus

abbrev pub v1_frame_header : ℕ
v1_frame_header = 8

-- The payload of the legacy frame at `inp`, with its checksum; none breaks the loop.
unfoldable pub v1_frame : List ℕ → ℕ → Option (ℕ × List ℕ)
v1_frame bytes inp =
    if leb (inp + v1_frame_header) (length bytes)
    then (elim (read_full bytes inp v1_frame_header) [
      | none ↦ none
      | some h ↦
          if ltb (length bytes) (inp + v1_frame_header + get_u32le (drop 4 h))
          then none
          else (elim (read_full bytes (inp + v1_frame_header) (get_u32le (drop 4 h))) [
            | none ↦ none
            | some buf ↦ if crc32_compute buf == get_u32le h then some (get_u32le h, buf) else none
          ])
    ])
    else none

-- The loop of migrate_legacy_log, on fuel. It writes at the new file's end, `written`; the answer is
-- that file and how many frames it got.
unfoldable pub migrate_from : ℕ → List ℕ → ℕ → List ℕ → ℕ → List ℕ × ℕ
migrate_from zero bytes inp written migrated = (written, migrated)
migrate_from (suc n) bytes inp written migrated = elim (v1_frame bytes inp) [
  | none ↦ (written, migrated)
  | some (crc, buf) ↦
      migrate_from n bytes (inp + v1_frame_header + length buf)
        (written ++ build_header (length buf) crc ++ buf) (suc migrated)
]

-- The file behind the rename, or none when the original is kept.
unfoldable pub migrate_legacy_log : List ℕ → Option (List ℕ)
migrate_legacy_log bytes =
    let (written, migrated) = migrate_from (suc (length bytes)) bytes 0 [] 0 in
    if (migrated == 0) && ltb 0 (length bytes) then none else some written

unfoldable pub verify_first_frame : Aead → List ℕ → List ℕ → ℕ → Bool
verify_first_frame cipher key bytes end =
    if ltb end (header_len true) then true else (elim (read_full bytes 0 (header_len true)) [
      | none ↦ false
      | some hdr ↦ elim (parse_header_v3 hdr) [
        | none ↦ false
        | some len ↦
            if ltb end (header_len true + len + aead_tag_len)
            then false
            else (elim (read_full bytes (header_len true) len) [
              | none ↦ false
              | some text ↦ elim (read_full bytes (header_len true + len) aead_tag_len) [
                | none ↦ false
                | some tag ↦ elim (open_frame cipher key hdr text tag) [
                  | none ↦ false
                  | some payload ↦ true
                ]
              ]
            ])
      ]
    ])

-- The mode that a key asks for, and its bytes.
abbrev pub is_keyed : Option (List ℕ) → Bool
is_keyed key = elim key [ none ↦ false | some k ↦ true ]

abbrev pub key_bytes : Option (List ℕ) → List ℕ
key_bytes key = elim key [ none ↦ [] | some k ↦ k ]

-- What the caller gets: the status, the file, and the log if it is open.
abbrev pub Opened : Type 0
Opened = LogOpenStatus × List ℕ × Option LogFile

module _ (cipher : Aead) (accepts : Option ℕ) (fsync_batch : ℕ) where
  abbrev pub opened : Option (List ℕ) → List ℕ → Opened
  opened key bytes = (
    log_open_ok,
    bytes,
    some (record {
      fd = true;
      bytes = bytes;
      accepts = accepts;
      size = length bytes;
      since_fsync = 0;
      fsync_batch = fsync_batch;
      encrypted = is_keyed key;
      key = key_bytes key;
    }),
  )

  abbrev pub refused : LogOpenStatus → List ℕ → Opened
  refused status bytes = (status, bytes, none)

  unfoldable pub open_encrypted : Option (List ℕ) → List ℕ → Opened
  open_encrypted none bytes = refused log_open_err_plain_on_enc bytes
  open_encrypted (some k) bytes =
      if verify_first_frame cipher k bytes (length bytes)
      then opened (some k) bytes
      else refused log_open_err_wrong_key bytes

  unfoldable pub open_plain : Option (List ℕ) → List ℕ → Opened
  open_plain none bytes = opened none bytes
  open_plain (some k) bytes = refused log_open_err_key_on_plain bytes

  unfoldable pub open_legacy : Option (List ℕ) → List ℕ → Opened
  open_legacy (some k) bytes = refused log_open_err_key_on_plain bytes
  open_legacy none bytes = elim (migrate_legacy_log bytes) [
    | none ↦ refused log_open_err_io bytes
    | some written ↦ opened none written
  ]

  unfoldable pub log_open : Option (List ℕ) → List ℕ → Opened
  log_open key bytes =
      if leb 4 (length bytes)
      then (if get_u32le bytes == log_frame_magic_enc
          then open_encrypted key bytes
          else if get_u32le bytes == log_frame_magic
          then open_plain key bytes
          else open_legacy key bytes)
      else opened key bytes
