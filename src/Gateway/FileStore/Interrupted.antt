-- ===== src/Gateway/FileStore/Interrupted.antt =====
-- gateway/src/store/file.ts: a process that ends while `#flush` runs. The steps of `#flush` on the disk.
use zegel.Common.{◌≡◌, refl, ◌∙◌, ◌⊎◌, inl, inr, some, ◌++◌}
use zegel.Common.Text.{Text}
use zegel.Common.Result.{ok}
use zegel.Gateway.Platform.{Platform}
use zegel.Gateway.Store.{EnvelopeRecord, MemoryEnvelopeStore, write}
use zegel.Gateway.FileStore.{Codec, File, contains, opened, load, read_file, flushed_text}
use zegel.Gateway.FileStore.Laws.{
  IsFaithful, IsOwn, IsPersistable, write-IsPersistable, read_file-flushed_text,
}

-- The store's path, and the temporary path beside it.
pub record Disk : Type 0 where
  pub file : File
  pub temporary : File

-- What the calls of `#flush` do to the disk: the temporary file grows to the whole text, and takes the
-- place of the store's file. A step that fails leaves the disk as it is.
pub data FlushStep (text : Text) : Disk → Disk → Type 0 where
  makes_directory : (d : Disk) → FlushStep text d d
  writes_part :
      (d : Disk) (part rest : Text)
      → part ++ rest ≡ text
      → FlushStep text d (record d { temporary = contains part })
  renames :
      (d : Disk)
      → d.temporary ≡ contains text
      → FlushStep text d
          (record { file = d.temporary; temporary = zegel.Gateway.FileStore.not_found })

-- Any number of steps, after which the process may have ended.
pub data Flushing (text : Text) : Disk → Disk → Type 0 where
  stopped : (d : Disk) → Flushing text d d
  continued : (d e f : Disk) → FlushStep text d e → Flushing text e f → Flushing text d f

-- The file is the old one or the whole new one.
file_of_step :
    (text : Text) (d e : Disk) → FlushStep text d e → (e.file ≡ d.file) ⊎ (e.file ≡ contains text)
file_of_step text _ _ (makes_directory d) = inl refl
file_of_step text _ _ (writes_part d part rest whole) = inl refl
file_of_step text _ _ (renames d full) = inr full

file_of_flush :
    (text : Text) (d e : Disk) → Flushing text d e → (e.file ≡ d.file) ⊎ (e.file ≡ contains text)
file_of_flush text _ _ (stopped d) = inl refl
file_of_flush text _ _ (continued d e f step more) = elim (file_of_flush text e f more) [
  | inr new ↦ inr new
  | inl same ↦ elim (file_of_step text d e step) [
    | inl old ↦ inl (same ∙ old)
    | inr new ↦ inr (same ∙ new)
  ]
]

-- The maps that a store on this file begins with.
abbrev pub Holds : Platform → Codec → File → MemoryEnvelopeStore → Type 0
Holds v c file m =
    load v c (opened file) ≡ (ok tt, record { file = file; loaded = some (ok tt); maps = m })

module _ (v : Platform) (c : Codec) (faithful : IsFaithful c) where
  -- If the process ends at any moment of the flush of a put, of a record as the publish handler
  -- makes it, a store that is opened on the file afterwards loads either the maps from before the
  -- put or those with the record written.
  pub load-Flushing :
      (r : EnvelopeRecord) (m : MemoryEnvelopeStore) (d e : Disk)
      → IsOwn v r
      → IsPersistable v m
      → Holds v c d.file m
      → Flushing (flushed_text v c (write r m)) d e
      → Holds v c e.file m ⊎ Holds v c e.file (write r m)
  unfolding load
  load-Flushing r m d e own p h steps =
      elim (file_of_flush (flushed_text v c (write r m)) d e steps) [
        | inl old ↦ inl (rw old h)
        | inr new ↦ inr (
            rw
              (
                new,
                read_file-flushed_text v c faithful (write r m) (write-IsPersistable v r m own p),
              )
              refl)
      ]
