-- ===== src/Journal/File/Reload.antt =====
-- What a journal file keeps of the appends, and what a failed write leaves behind.
use text.Mathlib.TextEquality.{eq_iff}
use project_mittens.Prelude.{
  ℕ, ◌<◌, arith, leb, ◌≡◌, ◌≢◌, ◌⊎◌, inl, inr, refl, sym, ap, ◌∙◌, Bool, true, false, String,
  Option, none, some, List, [], ◌∷◌, ◌++◌, Bool-cases,
}
use project_mittens.Prelude.Result.{Result, ok, err}
use project_mittens.Prelude.Dict.{str_eq}
use project_mittens.Float.{Float}
use project_mittens.Journal.Record.{JournalRecord, Payload}
use project_mittens.Journal.Store.{
  JournalError, MemoryStore, new_memory_store, append, duplicate_record,
}
use project_mittens.Journal.Store.Appends.{append-twice}
use project_mittens.Journal.File.{
  FileStore, FileError, journal, Disk, open_fails, write_fails, sync_fails, succeeds, is_io,
  failed_syncing, marshal_and_write, record_append, append_to_file, load_line, load_lines,
  load_from_file, max_line, scanned,
}

fits : (k : ℕ) → k < max_line → leb max_line k ≡ false
fits k h = ground arith

module _ {W : Type 0} ⦃f : Float W⦄ (digest : Payload W → String) (bytes : String → ℕ)
    (marshal : JournalRecord W → Option String)
    (unmarshal : String → Option (JournalRecord W)) where
  load-append :
      (start : Result FileError (MemoryStore W)) (xs ys : List String)
      → load_lines digest bytes unmarshal start (xs ++ ys)
        ≡ load_lines digest bytes unmarshal (load_lines digest bytes unmarshal start xs) ys
  unfolding load_lines
  load-append (err e) [] [] = refl
  load-append (err e) [] (y ∷ ys) = refl
  load-append (err e) (x ∷ xs) [] = refl
  load-append (err e) (x ∷ xs) (y ∷ ys) = refl
  load-append (ok mem) [] ys = refl
  load-append (ok mem) (x ∷ xs) ys = load-append (load_line digest bytes unmarshal mem x) xs ys

  load-nil : (o : Result FileError (MemoryStore W)) → load_lines digest bytes unmarshal o [] ≡ o
  unfolding load_lines
  load-nil (err e) = refl
  load-nil (ok mem) = refl

  -- A store that the lines of its file give back.
  abbrev pub IsPersisted : FileStore W → Type 0
  IsPersisted fs = load_from_file digest bytes unmarshal false fs.lines ≡ ok fs.mem

  load_line-ok :
      (mem after : MemoryStore W) (r : JournalRecord W) (line : String)
      → bytes line < max_line
      → line ≢ ""
      → unmarshal line ≡ some r
      → append digest mem r ≡ ok after
      → load_line digest bytes unmarshal mem line ≡ ok after
  unfolding load_line
  load_line-ok mem after r line small n u a = elim (Bool-cases (str_eq line "")) [
    | inl e ↦ absurd (n ((eq_iff line "").0 e))
    | inr e ↦ rw (fits (bytes line) small, e, u, a) refl
  ]

  -- What a write without an error has done.
  written-lines :
      (disk : Disk) (line : Option String) (fs t : FileStore W)
      → marshal_and_write disk line fs ≡ (t, none)
      → (l : String) × (line ≡ some l) × (t.lines ≡ fs.lines ++ (l ∷ [])) × (t.mem ≡ fs.mem)
  written-lines open_fails line fs t e = absurd (cc (ap (λ x. x.1) e))
  written-lines write_fails none fs t e = absurd (cc (ap (λ x. x.1) e))
  written-lines sync_fails none fs t e = absurd (cc (ap (λ x. x.1) e))
  written-lines succeeds none fs t e = absurd (cc (ap (λ x. x.1) e))
  written-lines write_fails (some l) fs t e = absurd (cc (ap (λ x. x.1) e))
  written-lines sync_fails (some l) fs t e = absurd (cc (ap (λ x. x.1) e))
  written-lines succeeds (some l) fs t e =
      let same = ap (λ x. x.0) e in
      (l, refl, sym (ap (λ x. x.lines) same), sym (ap (λ x. x.mem) same))

  persisted-lines :
      (fs : FileStore W)
      → IsPersisted fs
      → load_lines digest bytes unmarshal (ok new_memory_store) fs.lines ≡ ok fs.mem
  unfolding load_from_file
  persisted-lines fs = unscanned (load_lines digest bytes unmarshal (ok new_memory_store) fs.lines)
    where
      unscanned :
          (m : Result FileError (MemoryStore W))
          → scanned digest bytes unmarshal false m ≡ ok fs.mem
          → m ≡ ok fs.mem
      unscanned (err e) q = q
      unscanned (ok mem) q = q

  -- If the encoder's lines are not empty, fit in the scanner's buffer (below 16 MiB) and decode to
  -- their records, then after an append without an error a store is still what its file loads to,
  -- where the reading of the file does not fail.
  pub append_to_file-IsPersisted :
      (disk : Disk) (fs t : FileStore W) (r : JournalRecord W)
      → ((line : String)
          → marshal r ≡ some line
          → (bytes line < max_line) × (line ≢ "") × (unmarshal line ≡ some r))
      → IsPersisted fs
      → append_to_file digest marshal disk fs r ≡ (t, none)
      → IsPersisted t
  unfolding append_to_file load_from_file
  append_to_file-IsPersisted disk fs t r codec p = by_append (append digest fs.mem r) refl
    where
      by_append :
          (o : Result JournalError (MemoryStore W))
          → append digest fs.mem r ≡ o
          → record_append disk (marshal r) fs o ≡ (t, none)
          → IsPersisted t
      by_append (err x) a e = absurd (cc (ap (λ x. x.1) e))
      by_append (ok mem) a e =
          let (l, m, q, s) = written-lines disk (marshal r) (record fs { mem = mem }) t e in
          let (small, n, u) = codec l m in
          let whole : load_lines digest bytes unmarshal (ok new_memory_store) (fs.lines ++ (l ∷ []))
              ≡ ok mem =
            load-append (ok new_memory_store) fs.lines (l ∷ [])
            ∙ ap (λ x. load_lines digest bytes unmarshal x (l ∷ [])) (persisted-lines fs p)
            ∙ load-nil (load_line digest bytes unmarshal fs.mem l)
            ∙ load_line-ok fs.mem mem r l small n u a in
          rw (q, s, whole) refl

module _ {W : Type 0} ⦃f : Float W⦄ (digest : Payload W → String)
    (marshal : JournalRecord W → Option String) where
  abbrev is_error_io : Option FileError → Bool
  is_error_io none = false
  is_error_io (some e) = is_io e

  unchanged :
      {e : FileError} (fs t : FileStore W)
      → fs ≡ t
      → (t.mem ≡ fs.mem) × ((e ≡ failed_syncing) ⊎ (t.lines ≡ fs.lines))
  unchanged fs t q = (sym (ap (λ x. x.mem) q), inr (sym (ap (λ x. x.lines) q)))

  mem-failed :
      (disk : Disk) (line : Option String) (fs t : FileStore W) (e : FileError)
      → marshal_and_write disk line fs ≡ (t, some e)
      → (t.mem ≡ fs.mem) × ((e ≡ failed_syncing) ⊎ (t.lines ≡ fs.lines))
  mem-failed open_fails line fs t e h = unchanged fs t (ap (λ x. x.0) h)
  mem-failed write_fails none fs t e h = unchanged fs t (ap (λ x. x.0) h)
  mem-failed sync_fails none fs t e h = unchanged fs t (ap (λ x. x.0) h)
  mem-failed succeeds none fs t e h = unchanged fs t (ap (λ x. x.0) h)
  mem-failed write_fails (some l) fs t e h = unchanged fs t (ap (λ x. x.0) h)
  mem-failed sync_fails (some l) fs t e h =
      (sym (ap (λ x. x.0.mem) h), inl (same_error failed_syncing e (ap (λ x. x.1) h)))
    where
      same_error : (a b : FileError) → some a ≡ some b → b ≡ a
      same_error a b q = cc
  mem-failed succeeds (some l) fs t e h = absurd (cc (ap (λ x. x.1) h))

  -- After an append that has failed at the file, the index holds the record: each retry, even where
  -- the file system is well again, is refused as a duplicate and changes nothing. Unless it is the
  -- sync that failed, the file is without the record.
  pub append_to_file-retry :
      (disk later : Disk) (fs t : FileStore W) (r : JournalRecord W) (e : FileError)
      → append_to_file digest marshal disk fs r ≡ (t, some e)
      → is_io e ≡ true
      → ((e ≡ failed_syncing) ⊎ (t.lines ≡ fs.lines))
        × (append_to_file digest marshal later t r ≡ (t, some (journal duplicate_record)))
  unfolding append_to_file
  append_to_file-retry disk later fs t r e h io = by_append (append digest fs.mem r) refl h
    where
      not_io : (x : JournalError) (e : FileError) → some (journal x) ≡ some e → is_io e ≡ true → ⊥
      not_io x e q i = cc (ap is_error_io q ∙ i)

      by_append :
          (o : Result JournalError (MemoryStore W))
          → append digest fs.mem r ≡ o
          → record_append disk (marshal r) fs o ≡ (t, some e)
          → ((e ≡ failed_syncing) ⊎ (t.lines ≡ fs.lines))
            × (record_append later (marshal r) t (append digest t.mem r)
                ≡ (t, some (journal duplicate_record)))
      by_append (err x) a q = absurd (not_io x e (ap (λ y. y.1) q) io)
      by_append (ok mem) a q =
          let (m, l) = mem-failed disk (marshal r) (record fs { mem = mem }) t e q in
          (l, rw (m, append-twice digest fs.mem mem r a) refl)
