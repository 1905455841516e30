-- ===== src/Launcher/Spawned.antt =====
-- What the launcher spawns.
use nocciolo.Base.{
  ◌≡◌, ◌⊎◌, inl, inr, refl, ap, Bool, true, false, Option, none, some, List, ◌∷◌, String, sym,
  subst, [],
}
use nocciolo.Launcher.{
  Status, status_of, started, try, prepare, returned, failed, panicked, Session, Action, rest_of,
  setup_env, set_up, execute, main,
}
use nocciolo.Launcher.Commands.{Command, Choice, choice_of}
use nocciolo.Launcher.System.{Host, Result, val, err}
use nocciolo.Launcher.Quiet.{
  IsProgram, IsSilent, Quiet, Any, try-Quiet, Prepared, prepare-Quiet, Blame, word_at, nth-Quiet,
}

module _ (H : Host) (argv : List (Option String)) where
  -- Why nothing was spawned, where nothing was.
  abbrev pub Excuse : Choice → Session H → Status H.IoError (Unit {0}) → Type 0
  Excuse choice s (returned _) = IsSilent choice
  Excuse choice s (failed e) = Unit
  Excuse choice s panicked = (H.exists H.kernel s.world ≡ false) ⊎ Blame H argv

  abbrev pub Ended : Status H.IoError (Unit {0}) → Type 0
  Ended (returned _) = Unit
  Ended (failed e) = Unit
  Ended panicked = ⊥

  -- After a run from `s`: one command was spawned, a program of the choice, and the run returned or
  -- failed; or none was.
  abbrev pub Spawned : Choice → Session H → Status H.IoError (Unit {0}) × Session H → Type 0
  Spawned choice s r =
      ((cmd : Command) × (r.1.spawned ≡ cmd ∷ s.spawned) × IsProgram choice cmd.program × Ended r.0)
      ⊎ ((r.1.spawned ≡ s.spawned) × Excuse choice s r.0)

  rest_of-Spawned :
      {A : Type 0} (P : A → Type 0) (choice : Choice) (s : Session H) (f : A → Action H (Unit {0}))
      (r : Status H.IoError A × Session H)
      → Quiet H argv P s r
      → ((a : A) (s' : Session H) → s'.spawned ≡ s.spawned → P a → Spawned choice s (f a s'))
      → Spawned choice s (rest_of H r.0 f r.1)
  rest_of-Spawned P choice s f (returned a, s') h rest = rest a s' h.0 h.1
  rest_of-Spawned P choice s f (failed e, s') h rest = inr (h.0, tt)
  rest_of-Spawned P choice s f (panicked, s') h rest = inr (h.0, inr h.1)

  set_up-Spawned :
      (choice : Choice) (there : Bool) (s : Session H) (f : Unit {0} → Action H (Unit {0}))
      → H.exists H.kernel s.world ≡ there
      → ((u : Unit {0}) (s' : Session H)
          → s'.spawned ≡ s.spawned
          → Unit {0}
          → Spawned choice s (f u s'))
      → Spawned choice s (rest_of H (set_up H there s).0 f (set_up H there s).1)
  unfolding set_up
  set_up-Spawned choice false s f is rest = inr (refl, inl is)
  set_up-Spawned choice true s f is rest =
      let made = H.create_dir "target/iso" (H.symlink H.kernel "target/kernel-bin" s.world) in
      rest_of-Spawned (Any H argv) choice s f _
        (try-Quiet H argv (H.copy H.bios_path "target/iso/nocciolo.img") s
          (record s { world = made }) refl)
        rest

  execute-Spawned :
      (choice : Choice) (cmd : Option Command) (s s' : Session H)
      → s'.spawned ≡ s.spawned
      → Prepared H argv choice cmd
      → Spawned choice s (execute H cmd s')
  unfolding execute
  execute-Spawned choice none s s' h p = inr (h, p)
  execute-Spawned choice (some cmd) s s' h p = starts (H.spawn cmd s'.world)
    where
      waits : (cmds : List Command) (r : Result H.IoError (Unit {0})) → Ended (status_of H r)
      waits cmds (val a) = tt
      waits cmds (err e) = tt

      starts :
          (a : Result H.IoError (Unit {0}) × H.World)
          → Spawned choice s (
              rest_of H
                (started H cmd a.0 (record s' { world = a.1 })).0
                (λ _. try H H.wait)
                (started H cmd a.0 (record s' { world = a.1 })).1)
      starts (val _, world) = inl (cmd, ap (◌∷◌ cmd) h, p, waits [] (H.wait world).0)
      starts (err e, world) = inr (h, tt)

  -- Whatever the host does, a run of the launcher spawns no command or exactly one, and that one is
  -- a program of what the first argument asks for: the debugger, the emulator, mkisofs or bochs. It
  -- panics only where the kernel is missing, a line cannot be printed or an argument is not
  -- Unicode, and where it returns without an error it has spawned one, unless the argument is info
  -- or iso, an unknown word or not there.
  pub main-Spawned : (s : Session H) → Spawned (choice_of (word_at 1 argv)) s (main H argv s)
  unfolding main setup_env
  main-Spawned s =
      let word = word_at 1 argv in
      let choice = choice_of word in
      set_up-Spawned choice (H.exists H.kernel s.world) s _ refl (λ _ s1 h1 _.
        rest_of-Spawned (λ w. w ≡ word) choice s _ _ (nth-Quiet H argv 1 s s1 h1)
          (λ w s2 h2 is.
            let asked = ap choice_of is in
            rest_of-Spawned (Prepared H argv choice) choice s _ _
              (subst (λ c. Quiet H argv (Prepared H argv choice) s (prepare H c argv s2))
                (sym asked) (prepare-Quiet H argv choice s s2 h2))
              (λ cmd s3 h3 p. execute-Spawned choice cmd s s3 h3 p)))
