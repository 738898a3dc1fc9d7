-- ===== src/Configuration/Reloading.antt =====
-- The configurations that internal/adapters/config/file_provider.go ever holds.
use payment_gateway_router.Common.{
  inl, inr, ◌≡◌, Bool, true, false, ◌==◌, List, [], ◌∷◌, if◌then◌else◌,
}
use payment_gateway_router.Go.Time.{Time}
use payment_gateway_router.Domain.Errors.{Result, ok, err, ◌>>=◌}
use payment_gateway_router.Domain.Outcomes.{Result-cases, WhenOk, any-WhenOk, checked-WhenOk}
use payment_gateway_router.Domain.Config.{AppConfig, validate, with_defaults}
use payment_gateway_router.Configuration.{
  FileProvider, Disk, Parser, parse, loaded, reload, reload_if_changed, watch, new_file_provider,
}

abbrev pub IsValid : FileProvider → Type 0
IsValid p = validate p.current ≡ ok tt

abbrev made : AppConfig → Time → Result FileProvider
made cfg mod_time = ok (record { current = cfg; mod_time = mod_time })

module _ {Data : Type 0} (parser : Parser Data) where
  loaded-IsValid : (disk : Disk Data) → WhenOk IsValid (loaded parser disk)
  unfolding loaded
  loaded-IsValid disk = any-WhenOk IsValid disk.read _ (λ bytes.
      any-WhenOk IsValid (parse parser bytes) _ (λ parsed.
        checked-WhenOk IsValid (validate (with_defaults parsed))
          (disk.stat_after >>= made (with_defaults parsed))
          (λ valid.
            any-WhenOk IsValid disk.stat_after (made (with_defaults parsed)) (λ mod_time. valid))))

  reloaded :
      (p : FileProvider) (r : Result FileProvider)
      → WhenOk IsValid r
      → IsValid p
      → IsValid
          (elim r as (λ _. Result (Unit {0}) × FileProvider) [
            | err e ↦ (err e, p)
            | ok new ↦ (ok tt, new)
          ]).1
  reloaded p (err e) h k = k
  reloaded p (ok new) h k = h

  reload-IsValid :
      (disk : Disk Data) (p : FileProvider) → IsValid p → IsValid (reload parser disk p).1
  unfolding reload
  reload-IsValid disk p h = reloaded p (loaded parser disk) (loaded-IsValid disk) h

  either :
      (b : Bool) (p : FileProvider) (r : Result (Unit {0}) × FileProvider)
      → IsValid p
      → IsValid r.1
      → IsValid (if b then (ok tt, p) else r).1
  either true p r h k = h
  either false p r h k = k

  step-IsValid :
      (disk : Disk Data) (p : FileProvider)
      → IsValid p
      → IsValid (reload_if_changed parser disk p).1
  unfolding reload_if_changed reload loaded
  step-IsValid disk p h = elim (Result-cases disk.stat_before) [
    | inl (e, failed) ↦ rw failed h
    | inr (mod_time, found) ↦
        rw found
          (either (mod_time == p.mod_time) p (reload parser disk p) h (reload-IsValid disk p h))
  ]

  watch-IsValid :
      (ticks : List (Disk Data)) (p : FileProvider) → IsValid p → IsValid (watch parser ticks p)
  unfolding watch
  watch-IsValid [] p h = h
  watch-IsValid (disk ∷ ticks) p h =
      watch-IsValid ticks (reload_if_changed parser disk p).1 (step-IsValid disk p h)

  watched :
      (ticks : List (Disk Data)) (r : Result FileProvider)
      → WhenOk IsValid r
      → WhenOk (λ p. IsValid (watch parser ticks p)) r
  watched ticks (err e) h = tt
  watched ticks (ok p) h = watch-IsValid ticks p h

  -- A provider that `NewFileProvider` returns holds a valid configuration, and so it does after any
  -- number of ticks of `Watch`, whatever the file system and the unmarshallers answer at each:
  -- missing files, malformed or invalid configurations never replace the last valid one.
  pub new_file_provider-IsValid :
      (disk : Disk Data) (ticks : List (Disk Data))
      → WhenOk (λ p. IsValid (watch parser ticks p)) (new_file_provider parser disk)
  unfolding new_file_provider
  new_file_provider-IsValid disk ticks = watched ticks (loaded parser disk) (loaded-IsValid disk)
