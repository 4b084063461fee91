-- ===== src/Secrets/Sync.antt =====
-- `getSync` and `_readSync` of legacy/masson/lib/secrets.js, against `get`.
use ryba.Base.{String, ◌==◌, ◌≡◌, ◌≢◌, refl, Option, none, some, if◌then◌else◌}
use ryba.Js.{Value, ok, err, not_initialized, io_error}
use ryba.Secrets.{
  Bytes, take, drop, Platform, File, missing, unreadable, contents, World, M, ◌>>=◌, pure,
  read_file, cached, read, decrypt, get_all, get_key,
}

-- `_readSync`, from the test of the two buffers on: any error of `statSync` is taken for a missing file.
unfoldable pub read_file_sync : File → M (Bytes × Bytes)
read_file_sync (contents bs) w =
    (ok (take 16 bs, drop 16 bs), record w { iv = some (take 16 bs); raw = some (drop 16 bs) })
read_file_sync f w = (err not_initialized, w)

unfoldable pub cached_sync : Option Bytes → Option Bytes → M (Bytes × Bytes)
cached_sync (some iv) (some raw) w = (ok (iv, raw), w)
cached_sync none raw w = read_file_sync w.file w
cached_sync (some iv) none w = read_file_sync w.file w

unfoldable pub read_sync : M (Bytes × Bytes)
read_sync w = cached_sync w.iv w.raw w

module _ (platform : Platform) where
  -- `getSync()` and `getSync(key)`
  unfoldable pub get_all_sync : M Value
  get_all_sync = read_sync >>= λ (iv, raw) w. (decrypt platform raw iv, w)

  unfoldable pub get_key_sync : String → M Value
  get_key_sync key =
      get_all_sync >>= λ secrets. pure (if key == "" then secrets else platform.get_at secrets key)

read_file_sync-eq : (f : File) (w : World) → f ≢ unreadable → read_file_sync f w ≡ read_file f w
unfolding read_file_sync read_file
read_file_sync-eq missing w h = refl
read_file_sync-eq unreadable w h = absurd (h refl)
read_file_sync-eq (contents bs) w h = refl

cached_sync-eq :
    (iv raw : Option Bytes) (w : World)
    → w.file ≢ unreadable
    → cached_sync iv raw w ≡ cached iv raw w
unfolding cached_sync cached
cached_sync-eq (some iv) (some raw) w h = refl
cached_sync-eq none raw w h = read_file_sync-eq w.file w h
cached_sync-eq (some iv) none w h = read_file_sync-eq w.file w h

-- Unless `stat` fails with an error other than ENOENT, `getSync` gives what `get` gives, and keeps the same
-- buffers.
get_key_sync-get_key :
    (platform : Platform) (key : String) (w : World)
    → w.file ≢ unreadable
    → get_key_sync platform key w ≡ get_key platform key w
unfolding get_key_sync get_all_sync read_sync get_key get_all read
get_key_sync-get_key platform key w h = rw (cached_sync-eq w.iv w.raw w h) refl

-- Where `stat` fails with an error other than ENOENT and nothing has been read, `get` throws that error, and
-- `getSync` says that the store is not initialized.
pub get_key_sync-unreadable :
    (platform : Platform) (key : String) (w : World)
    → w.file ≡ unreadable
    → w.iv ≡ none
    → (get_key platform key w ≡ (err io_error, w))
      × (get_key_sync platform key w ≡ (err not_initialized, w))
unfolding get_key_sync get_all_sync read_sync cached_sync read_file_sync get_key get_all read cached
    read_file
get_key_sync-unreadable platform key w e fresh =
    let same : w ≡ record { file = unreadable; iv = none; raw = w.raw } =
      λ i. record { file = e i; iv = fresh i; raw = w.raw } in
    rw same (refl, refl)
