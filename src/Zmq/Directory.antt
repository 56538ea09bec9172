-- ===== src/Zmq/Directory.antt =====
-- What the files of the state directory and the control requests of src/python/gizmo_zmq.py may hold,
-- and the steps of which the handlers are made.
use gizmo.Prelude.{
  ℕ, ◌≤◌, ◌≡◌, refl, sym, ap, subst, ◌∙◌, true, false, ◌⊎◌, inl, inr, Option, none, some, List, [],
  ◌∷◌, ◌++◌, ◌==◌, arith, if_cases, Option-cases, if◌then◌else◌,
}
use gizmo.Text.{Text, text}
use gizmo.Common.{ℤ, pos, int_text, read_exported_int}
use gizmo.Zmq.{
  File, file_index, file_eq, World, Board, Result, ok, err, Action, ◌>>=◌, pure, raise, lift,
  write_file, request_control, is_unsafe, write_argument, write_zmon_arguments, restart_zmon,
  threshold_max_ohm,
}

-- The file of one argument of the measurement engine: a quoted text in which no quote ends early.
abbrev pub IsArgument : Text → Option Text → Type 0
IsArgument index none = Unit
IsArgument index (some contents) =
    (argument : Text) × ((is_unsafe argument ≡ false)
      × (contents ≡ text "ZMonArg" ++ index ++ text "=\"" ++ argument ++ text "\"\n"))

-- What a file of the state directory may hold.
abbrev pub IsContents : File → Option Text → Type 0
IsContents File.set_threshold o =
    (threshold : ℕ) × ((threshold ≤ threshold_max_ohm)
      × (read_exported_int o (text "threshold") (pos 100) ≡ pos threshold))
IsContents File.zmon_arg1 o = IsArgument (text "1") o
IsContents File.zmon_arg2 o = IsArgument (text "2") o
IsContents File.zmon_arg3 o = IsArgument (text "3") o
IsContents f o = Unit

-- The requests that the server may make of gizmo-control.
abbrev pub IsAllowed : Text → Type 0
IsAllowed request =
    (request ≡ text "restart-zmon") ⊎ ((n : ℤ) × (request ≡ text "set-time " ++ int_text n))

abbrev pub AreAllowed : List Text → Type 0
AreAllowed [] = Unit
AreAllowed (request ∷ requests) = IsAllowed request × AreAllowed requests

pub record IsBoard (b : Board) : Type 0 where
  pub files : (f : File) → IsContents f (b.file f)
  pub requests : AreAllowed b.controls

pub record Keeps {A : Type 0} (m : Action A) : Type 0 where
  pub kept : (w : World) (b : Board) → IsBoard b → IsBoard ((m w b).1)

of_index : ℕ → File
of_index n =
    if n == 0
    then File.set_run_interval
    else if n == 1
    then File.set_threshold
    else if n == 2
    then File.zmon_arg1
    else if n == 3
    then File.zmon_arg2
    else if n == 4
    then File.zmon_arg3
    else if n == 5
    then File.latch_state
    else if n == 6
    then File.adc_csv
    else if n == 7
    then File.rcalibration_csv
    else File.ccalibration_csv

of_index-file_index : (f : File) → of_index (file_index f) ≡ f
unfolding of_index
of_index-file_index File.set_run_interval = refl
of_index-file_index File.set_threshold = refl
of_index-file_index File.zmon_arg1 = refl
of_index-file_index File.zmon_arg2 = refl
of_index-file_index File.zmon_arg3 = refl
of_index-file_index File.latch_state = refl
of_index-file_index File.adc_csv = refl
of_index-file_index File.rcalibration_csv = refl
of_index-file_index File.ccalibration_csv = refl

index_eq : (a b : ℕ) → (a == b) ≡ true → a ≡ b
index_eq a b h = ground arith

eq_of_file_eq : (f g : File) → file_eq f g ≡ true → f ≡ g
eq_of_file_eq f g h =
    sym (of_index-file_index f)
    ∙ ap of_index (index_eq (file_index f) (file_index g) h)
    ∙ of_index-file_index g

module _ {A B : Type 0} where
  continue-Keeps :
      (k : A → Action B) (w : World) (r : Result A) (b : Board)
      → ((a : A) → Keeps (k a))
      → IsBoard b
      → IsBoard ((lift r >>= k) w b).1
  unfolding ◌>>=◌ lift
  continue-Keeps k w (ok a) b h p = (h a).kept w b p
  continue-Keeps k w (err e) b h p = p

  pub bind-Keeps :
      {m : Action A} {k : A → Action B} → Keeps m → ((a : A) → Keeps (k a)) → Keeps (m >>= k)
  unfolding ◌>>=◌ lift
  bind-Keeps {m = m} {k = k} h l = record {
    kept = λ w b p. continue-Keeps k w ((m w b).0) ((m w b).1) l (h.kept w b p);
  }

  pub lift-Keeps :
      {r : Result A} {k : A → Action B} → ((a : A) → r ≡ ok a → Keeps (k a)) → Keeps (lift r >>= k)
  unfolding ◌>>=◌ lift
  lift-Keeps {r = ok a} l = record { kept = λ w b p. (l a refl).kept w b p }
  lift-Keeps {r = err e} l = record { kept = λ w b p. p }

module _ {A : Type 0} where
  pub pure-Keeps : (a : A) → Keeps (pure a)
  unfolding pure
  pure-Keeps a = record { kept = λ w b p. p }

  pub raise-Keeps : (e : Text) → Keeps (raise {A = A} e)
  unfolding raise
  raise-Keeps e = record { kept = λ w b p. p }

pub write_file-Keeps :
    (f : File) (contents : Text) → IsContents f (some contents) → Keeps (write_file f contents)
unfolding write_file
write_file-Keeps f contents h = record {
  kept = λ w b p. elim (Option-cases (w.write_error f)) [
    | inr (e, k) ↦ rw (k, write_file) p
    | inl n ↦ rw (n, write_file) (record { files = written b p; requests = p.requests })
  ];
}
  where
    written :
        (b : Board) (p : IsBoard b) (g : File)
        → IsContents g (if file_eq f g then some contents else b.file g)
    written b p g =
        if_cases (IsContents g) (file_eq f g) (some contents) (b.file g)
          (λ e. subst (λ i. IsContents i (some contents)) (eq_of_file_eq f g e) h) (λ e. p.files g)

pub request_control-Keeps : (request : Text) → IsAllowed request → Keeps (request_control request)
unfolding request_control
request_control-Keeps request h = record {
  kept = λ w b p. record { files = p.files; requests = (h, p.requests) };
}

pub write_argument-Keeps :
    (f : File) (index argument : Text)
    → ((contents : Text) → IsArgument index (some contents) → IsContents f (some contents))
    → Keeps (write_argument f index argument)
unfolding write_argument
write_argument-Keeps f index argument h =
    if_cases Keeps (is_unsafe argument) _ _ (λ e. raise-Keeps _)
      (λ e. write_file-Keeps f _ (h _ (argument, (e, refl))))

pub restart_zmon-Keeps : (a b c : Text) → Keeps (restart_zmon a b c)
unfolding restart_zmon write_zmon_arguments
restart_zmon-Keeps a b c =
    bind-Keeps
      (bind-Keeps (write_argument-Keeps File.zmon_arg1 (text "1") a (λ t h. h)) (λ _.
        bind-Keeps (write_argument-Keeps File.zmon_arg2 (text "2") b (λ t h. h))
          (λ _. write_argument-Keeps File.zmon_arg3 (text "3") c (λ t h. h))))
      (λ _. request_control-Keeps (text "restart-zmon") (inl refl))
