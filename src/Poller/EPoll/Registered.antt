-- ===== src/Poller/EPoll/Registered.antt =====
-- The invariant of `EPoll`: the index of each channel says whether the kernel watches it.
use chtho.Prelude.{
  ℕ, ◌≡◌, ◌≢◌, refl, ap, ◌∙◌, true, false, ◌&&◌, Option, none, some, Result, ok, fail, Fault, ◌⊎◌,
  inl, inr, ◌==◌, if◌then◌else◌, ℤ, pos, negsuc, update, arith, Bool-cases,
}
use chtho.Poller.{set_idx}
use chtho.Poller.EPoll.{add, mod_, del, EpollApi, EPoll, update_channel, remove_channel}

module _ (api : EpollApi) where
  open api use {
    Kernel, interest, ctl, accepts, ctl_add, ctl_mod, ctl_add_accepted, ctl_mod_accepted, ctl_del,
  }

  -- A mapped channel is watched for its events, or it was taken from the kernel and has none.
  abbrev pub Watched : EPoll api → ℕ → ℕ → Type 0
  Watched w fd p =
      ((w.channels p).fd ≡ fd)
      × ((((w.channels p).idx ≡ pos 1) × (interest w.kernel fd ≡ some ((w.channels p).events, p)))
          ⊎ (((w.channels p).idx ≡ pos 2)
              × ((w.channels p).events ≡ 0)
              × (interest w.kernel fd ≡ none)))

  pub record IsRegistered (w : EPoll api) : Type 0 where
    pub watched : (fd p : ℕ) → w.map fd ≡ some p → Watched w fd p
    pub unknown : (fd : ℕ) → w.map fd ≡ none → interest w.kernel fd ≡ none

  abbrev pub with_events : EPoll api → ℕ → ℕ → EPoll api
  with_events w p ev = record w {
    channels = update w.channels p (record (w.channels p) { events = ev });
  }

  -- The poller knows the channel, or it is new and its descriptor is free.
  abbrev pub CanUpdate : EPoll api → ℕ → Type 0
  CanUpdate w p =
      (w.map (w.channels p).fd ≡ some p)
      ⊎ (((w.channels p).idx ≡ negsuc 0) × (w.map (w.channels p).fd ≡ none))

  -- The kernel watches the channel for its events, or not at all where it has none and was watched.
  abbrev pub expected : EPoll api → ℕ → ℕ → Option (ℕ × ℕ)
  expected w p ev =
      if ev == 0 && (elim (w.channels p).idx [ negsuc n ↦ false | pos i ↦ i == 1 ])
      then none
      else some (ev, p)

  -- The call ends the program by `LOG_SYSFATAL`, only where the kernel does not accept the
  -- descriptor, or returns such a state.
  abbrev pub Updates : EPoll api → ℕ → ℕ → Result (EPoll api) → Type 0
  Updates w p ev (fail Fault.fatal) = accepts w.kernel (w.channels p).fd ≡ false
  Updates w p ev (fail _) = ⊥
  Updates w p ev (ok w') =
      IsRegistered w'
      × ((fd : ℕ) → w'.map fd ≡ update w.map (w.channels p).fd (some p) fd)
      × ((fd : ℕ)
          → interest w'.kernel fd
            ≡ update (interest w.kernel) (w.channels p).fd (expected w p ev) fd)

  module _ (w : EPoll api) (v : IsRegistered w) (p ev : ℕ) where
    abbrev fd : ℕ
    fd = (w.channels p).fd

    abbrev after : Kernel → (ℕ → Option ℕ) → ℤ → EPoll api
    after k m i = record {
      kernel = k;
      map = m;
      channels = set_idx (with_events w p ev).channels p i;
    }

    -- The kernel has the new events at the descriptor, and all else is the same.
    entered :
        (w' : EPoll api)
        → ((f : ℕ) → w'.map f ≡ update w.map fd (some p) f)
        → ((q : ℕ)
            → w'.channels q
              ≡ update w.channels p (record (w.channels p) { events = ev; idx = pos 1 }) q)
        → ((f : ℕ) → interest w'.kernel f ≡ update (interest w.kernel) fd (some (ev, p)) f)
        → IsRegistered w'
    entered w' em ec ek = record {
      watched = watch;
      unknown = λ f e. ground (arith, e, em f, ek f, v.unknown f);
    }
      where
        watch : (f q : ℕ) → w'.map f ≡ some q → Watched w' f q
        watch f q e = elim (Bool-cases (fd == f)) [
          | inl same ↦ (
            ground (arith, e, em f, ec q),
            inl (ground (arith, e, em f, ec q), ground (arith, ek f, e, em f, ec q)),
          )
          | inr ne ↦
              let old : w.map f ≡ some q = ground (arith, e, em f) in
              ground (arith, v.watched f q old, ek f, ec q)
        ]

    -- The kernel no longer watches the descriptor of a channel with no events.
    left :
        (k : Kernel)
        → ev ≡ 0
        → w.map fd ≡ some p
        → ((f : ℕ) → interest k f ≡ update (interest w.kernel) fd none f)
        → IsRegistered (after k w.map (pos 2))
    left k zero_ev there ek = record {
      watched = watch;
      unknown = λ f e. ground (arith, ek f, v.unknown f e);
    }
      where
        watch : (f q : ℕ) → w.map f ≡ some q → Watched (after k w.map (pos 2)) f q
        watch f q e = elim (Bool-cases (fd == f)) [
          | inl same ↦ (
            ground (arith, e, there),
            inr (ground (arith, e, there), ground (arith, e, there), ground (arith, ek f)),
          )
          | inr ne ↦ ground (arith, v.watched f q e, ek f)
        ]

    -- What the branches of `updateChannel` return.
    new_steps :
        (w.channels p).idx ≡ negsuc 0
        → update_channel api (with_events w p ev) p ≡ (elim (ctl w.kernel add fd ev p) [
          | none ↦ fail Fault.fatal
          | some k ↦ ok (after k (update w.map fd (some p)) (pos 1))
        ])
    unfolding update_channel
    new_steps a = ground arith

    deleted_steps :
        (w.channels p).idx ≡ pos 2
        → update_channel api (with_events w p ev) p ≡ (elim (ctl w.kernel add fd ev p) [
          | none ↦ fail Fault.fatal
          | some k ↦ ok (after k w.map (pos 1))
        ])
    unfolding update_channel
    deleted_steps a = ground arith

    modified_steps :
        (w.channels p).idx ≡ pos 1
        → w.map fd ≡ some p
        → ev ≢ 0
        → update_channel api (with_events w p ev) p ≡ (elim (ctl w.kernel mod_ fd ev p) [
          | none ↦ fail Fault.fatal
          | some k ↦ ok (record (with_events w p ev) { kernel = k })
        ])
    unfolding update_channel
    modified_steps a m some_event = ground arith

    quiet_steps :
        (k : Kernel)
        → (w.channels p).idx ≡ pos 1
        → w.map fd ≡ some p
        → ev ≡ 0
        → ctl w.kernel del fd ev p ≡ some k
        → update_channel api (with_events w p ev) p ≡ ok (after k w.map (pos 2))
    unfolding update_channel
    quiet_steps k a m none_event e = ground arith

    -- `ADD` or `MOD` has put the channel into the kernel, or ends the program.
    put :
        (r : Option Kernel) (next : Kernel → EPoll api)
        → (accepts w.kernel fd ≡ true → (k : Kernel) × (r ≡ some k))
        → ((k : Kernel)
            → r ≡ some k
            → (f : ℕ) → interest k f ≡ update (interest w.kernel) fd (some (ev, p)) f)
        → ((k : Kernel) → (next k).kernel ≡ k)
        → ((k : Kernel) (f : ℕ) → (next k).map f ≡ update w.map fd (some p) f)
        → ((k : Kernel) (q : ℕ)
            → (next k).channels q
              ≡ update w.channels p (record (w.channels p) { events = ev; idx = pos 1 }) q)
        → expected w p ev ≡ some (ev, p)
        → Updates w p ev (elim r [ none ↦ fail Fault.fatal | some k ↦ ok (next k) ])
    put none next goes ek e₁ e₂ e₃ x = elim (Bool-cases (accepts w.kernel fd)) [
      | inl h ↦ let (k, e) = goes h in cc
      | inr h ↦ h
    ]
    put (some k) next goes ek e₁ e₂ e₃ x =
        let kernel = λ (f : ℕ). ap (λ (k : Kernel). interest k f) (e₁ k) ∙ ek k refl f in
        (entered (next k) (e₂ k) (e₃ k) kernel, e₂ k, λ f. ground (arith, kernel f, x))

    update_new :
        (w.channels p).idx ≡ negsuc 0
        → w.map fd ≡ none
        → Updates w p ev (update_channel api (with_events w p ev) p)
    update_new a m = rw (new_steps a) (
        put (ctl w.kernel add fd ev p) (λ k. after k (update w.map fd (some p)) (pos 1))
          (λ h. ctl_add_accepted w.kernel fd ev p h (v.unknown fd m))
          (λ k e. ctl_add w.kernel k fd ev p e) (λ k. refl) (λ k f. refl) (λ k q. ground arith)
          (ground (arith, a)))

    update_deleted :
        (w.channels p).idx ≡ pos 2
        → w.map fd ≡ some p
        → interest w.kernel fd ≡ none
        → Updates w p ev (update_channel api (with_events w p ev) p)
    update_deleted a m free = rw (deleted_steps a) (
        put (ctl w.kernel add fd ev p) (λ k. after k w.map (pos 1))
          (λ h. ctl_add_accepted w.kernel fd ev p h free) (λ k e. ctl_add w.kernel k fd ev p e)
          (λ k. refl) (λ k f. ground (arith, m)) (λ k q. ground arith) (ground (arith, a)))

    update_modified :
        (w.channels p).idx ≡ pos 1
        → w.map fd ≡ some p
        → ev ≢ 0
        → interest w.kernel fd ≡ some ((w.channels p).events, p)
        → Updates w p ev (update_channel api (with_events w p ev) p)
    update_modified a m some_event there = rw (modified_steps a m some_event) (
        put (ctl w.kernel mod_ fd ev p) (λ k. record (with_events w p ev) { kernel = k })
          (λ h. ctl_mod_accepted w.kernel fd ev p _ h there) (λ k e. ctl_mod w.kernel k fd ev p e)
          (λ k. refl) (λ k f. ground (arith, m)) (λ k q. ground (arith, a))
          (ground (arith, some_event)))

    update_quiet :
        (w.channels p).idx ≡ pos 1
        → w.map fd ≡ some p
        → ev ≡ 0
        → interest w.kernel fd ≡ some ((w.channels p).events, p)
        → Updates w p ev (update_channel api (with_events w p ev) p)
    update_quiet a m none_event there =
        let (k, e, ek) = ctl_del w.kernel fd ev p ((w.channels p).events, p) there in
        rw (quiet_steps k a m none_event e) (
          left k none_event m ek,
          (λ f. ground (arith, m)),
          λ f. ground (arith, ek f, a, none_event),
        )

    -- An update of a channel that the poller knows, or of a new one whose descriptor is free, keeps
    -- the indices in step with the kernel, or ends the program, which it does only where the kernel
    -- does not accept the descriptor. The kernel then watches the channel for its new events, or no
    -- longer if it was watched and has none; all other descriptors stay.
    pub update-Updates : CanUpdate w p → Updates w p ev (update_channel api (with_events w p ev) p)
    update-Updates (inl m) = known (v.watched fd p m)
      where
        known : Watched w fd p → Updates w p ev (update_channel api (with_events w p ev) p)
        known (_, inr (a, _, free)) = update_deleted a m free
        known (_, inl (a, there)) = elim (Bool-cases (ev == 0)) [
          | inl e ↦ update_quiet a m (ground (arith, e)) there
          | inr e ↦ update_modified a m (ground (arith, e)) there
        ]
    update-Updates (inr (a, m)) = update_new a m

    remove_watched :
        (k : Kernel)
        → (w.channels p).idx ≡ pos 1
        → w.map fd ≡ some p
        → ctl w.kernel del fd (w.channels p).events p ≡ some k
        → remove_channel api w p
          ≡ ok (record {
            kernel = k;
            map = update w.map fd none;
            channels = set_idx w.channels p (negsuc 0);
          })
    unfolding remove_channel
    remove_watched k a m e = ground arith

    remove_unwatched :
        (w.channels p).idx ≡ pos 2
        → w.map fd ≡ some p
        → remove_channel api w p
          ≡ ok (record w { map = update w.map fd none; channels = set_idx w.channels p (negsuc 0) })
    unfolding remove_channel
    remove_unwatched a m = ground arith

    removed :
        (k : Kernel)
        → w.map fd ≡ some p
        → ((f : ℕ) → interest k f ≡ update (interest w.kernel) fd none f)
        → IsRegistered (record {
          kernel = k;
          map = update w.map fd none;
          channels = set_idx w.channels p (negsuc 0);
        })
    removed k m ek = record {
      watched = λ f q e. ground (arith, e, ek f, v.watched f q (ground (arith, e)));
      unknown = λ f e. ground (arith, e, ek f, v.unknown f);
    }

    -- A channel that the poller knows can be removed: the call succeeds, the indices stay in step
    -- with the kernel, the channel is as a new one, and neither the map nor the kernel has its
    -- descriptor; all other descriptors stay.
    pub remove_channel-IsRegistered :
        w.map fd ≡ some p
        → (w' : EPoll api) × (remove_channel api w p ≡ ok w')
          × IsRegistered w'
          × ((w'.channels p).idx ≡ negsuc 0)
          × ((f : ℕ) → w'.map f ≡ update w.map fd none f)
          × ((f : ℕ) → interest w'.kernel f ≡ update (interest w.kernel) fd none f)
    remove_channel-IsRegistered m = known (v.watched fd p m)
      where
        known :
            Watched w fd p
            → (w' : EPoll api) × (remove_channel api w p ≡ ok w')
              × IsRegistered w'
              × ((w'.channels p).idx ≡ negsuc 0)
              × ((f : ℕ) → w'.map f ≡ update w.map fd none f)
              × ((f : ℕ) → interest w'.kernel f ≡ update (interest w.kernel) fd none f)
        known (_, inr (a, _, out)) =
            let ek = λ (f : ℕ).
              (let e : interest w.kernel f ≡ update (interest w.kernel) fd none f =
                  ground (arith, out) in
                e) in
            (
              record w { map = update w.map fd none; channels = set_idx w.channels p (negsuc 0) },
              remove_unwatched a m,
              removed w.kernel m ek,
              ground arith,
              (λ f. refl),
              ek,
            )
        known (_, inl (a, there)) =
            let (k, e, ek) =
              ctl_del w.kernel fd (w.channels p).events p ((w.channels p).events, p) there in
            (
              record {
                kernel = k;
                map = update w.map fd none;
                channels = set_idx w.channels p (negsuc 0);
              },
              remove_watched k a m e,
              removed k m ek,
              ground arith,
              (λ f. refl),
              ek,
            )
