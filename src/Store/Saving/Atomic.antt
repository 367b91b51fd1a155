-- ===== src/Store/Saving/Atomic.antt =====
-- What _saveLocal of config/ConfigService.js leaves in the files.
use azan_dashboard.Prelude.{◌≡◌, refl, Option, none, some, if_both, Bool-cases, inl, inr}
use azan_dashboard.Result.{Error, Result, ok, err, Result-cases}
use azan_dashboard.Json.{Members}
use azan_dashboard.Secrets.{encrypting}
use azan_dashboard.Store.{Environment, Setup}
use azan_dashboard.Store.Saving.{
  process_sensitive_fields, Content, holds, Disk, Fault, written, give_up, replace_file, save_local,
}

-- What a save comes to: the local file is as before and the caller is told of an error, or it holds
-- the complete copy that _processSensitiveFields makes and the temporary file is gone.
pub data Saved (st : Setup) (env : Environment) (config : Members) (d : Disk)
    : Disk × Result Members → Type 0 where
  kept :
      {d' : Disk} {e : Error}
      → d'.local ≡ d.local
      → d'.shipped ≡ d.shipped
      → Saved st env config d (d', err e)
  replaced :
      {copy : Members}
      → process_sensitive_fields st env encrypting config ≡ ok copy
      → Saved st env config d (record d { local = some (holds copy); temp = none }, ok copy)

module _ (st : Setup) (env : Environment) (config : Members) where
  give_up-Saved :
      (f : Fault) (d : Disk) (t : Option Content)
      → Saved st env config d (give_up f (record d { temp = t }))
  give_up-Saved f d t = elim (Bool-cases f.unlink_fails) [
    | inl b ↦ rw b (kept refl refl)
    | inr b ↦ rw b (kept refl refl)
  ]

  replace_file-Saved :
      (f : Fault) (copy : Members) (d : Disk)
      → process_sensitive_fields st env encrypting config ≡ ok copy
      → Saved st env config d (replace_file f copy d)
  unfolding replace_file
  replace_file-Saved f copy d e =
      let P = Saved st env config d in
      let failed = give_up-Saved f d (some (written f copy)) in
      elim (Bool-cases f.torn) [
        | inl t ↦
            rw (t, replace_file)
              (if_both P f.write_fails _ _ (rw t at failed)
                (if_both P f.read_fails _ _ (rw t at failed) (rw t at failed)))
        | inr t ↦
            rw (t, replace_file)
              (if_both P f.write_fails _ _ (rw t at failed) (
                if_both P f.read_fails _ _ (rw t at failed)
                  (if_both P f.rename_fails _ _ (rw t at failed) (replaced e))))
      ]

  pub save_local-Saved :
      (f : Fault) (d : Disk) → Saved st env config d (save_local st env f config d)
  unfolding save_local
  save_local-Saved f d = elim (Result-cases (process_sensitive_fields st env encrypting config)) [
    | inl (copy, e) ↦ rw (e, save_local) (replace_file-Saved f copy d e)
    | inr (t, e) ↦ rw (e, save_local) (kept refl refl)
  ]
