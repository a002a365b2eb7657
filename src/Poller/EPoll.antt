-- ===== src/Poller/EPoll.antt =====
-- chtho/net/poller/EPoll.cpp. The kernel's interest list is outside the program: what `epoll_ctl`
-- does to it is a parameter.
pub mod Registered
mod Tests
use chtho.Prelude.{
  ℕ, ◌≡◌, Bool, true, false, not, List, [], ◌∷◌, Option, none, some, Result, ok, fail, Fault, ◌>>=◌,
  ◌>>◌, guard, ◌==◌, if◌then◌else◌, ℤ, pos, negsuc, update,
}
use chtho.Poller.{Channel, Channels, ChannelMap, is_none_event, set_idx, set_revents}

-- `EPOLL_CTL_ADD`, `EPOLL_CTL_MOD` and `EPOLL_CTL_DEL`
pub data Op : Type 0 where
  add mod_ del : Op

-- What epoll_ctl(2) documents: a call that succeeds changes the entry of its descriptor alone; a
-- descriptor that is in the list can be deleted from it and is not added again (EEXIST), and one
-- that is not there is not modified (ENOENT). `accepts` says that none of its other errors holds of
-- a descriptor: that it is open, and a file that epoll can watch, and that there is memory and room
-- for another watch. An entry has events and a pointer.
pub record EpollApi : Type 1 where
  pub Kernel : Type 0
  pub interest : Kernel → ℕ → Option (ℕ × ℕ)
  pub ctl : Kernel → Op → ℕ → ℕ → ℕ → Option Kernel
  pub accepts : Kernel → ℕ → Bool
  pub ctl_add :
      (k k' : Kernel) (fd ev p : ℕ)
      → ctl k add fd ev p ≡ some k'
      → (f : ℕ) → interest k' f ≡ update (interest k) fd (some (ev, p)) f
  pub ctl_mod :
      (k k' : Kernel) (fd ev p : ℕ)
      → ctl k mod_ fd ev p ≡ some k'
      → (f : ℕ) → interest k' f ≡ update (interest k) fd (some (ev, p)) f
  pub ctl_add_exists :
      (k : Kernel) (fd ev p : ℕ) (e : ℕ × ℕ) → interest k fd ≡ some e → ctl k add fd ev p ≡ none
  pub ctl_mod_missing :
      (k : Kernel) (fd ev p : ℕ) → interest k fd ≡ none → ctl k mod_ fd ev p ≡ none
  pub ctl_add_accepted :
      (k : Kernel) (fd ev p : ℕ)
      → accepts k fd ≡ true
      → interest k fd ≡ none
      → (k' : Kernel) × (ctl k add fd ev p ≡ some k')
  pub ctl_mod_accepted :
      (k : Kernel) (fd ev p : ℕ) (e : ℕ × ℕ)
      → accepts k fd ≡ true
      → interest k fd ≡ some e
      → (k' : Kernel) × (ctl k mod_ fd ev p ≡ some k')
  pub ctl_del :
      (k : Kernel) (fd ev p : ℕ) (e : ℕ × ℕ)
      → interest k fd ≡ some e
      → (k' : Kernel) × (ctl k del fd ev p ≡ some k')
        × ((f : ℕ) → interest k' f ≡ update (interest k) fd none f)

module _ (api : EpollApi) where
  open api use {Kernel, interest, ctl}

  pub record EPoll : Type 0 where
    pub kernel : Kernel
    pub map : ChannelMap
    pub channels : Channels

  abbrev pub is_mapped : ChannelMap → ℕ → ℕ → Bool
  is_mapped m fd p = elim (m fd) [ none ↦ false | some q ↦ q == p ]

  -- `EPoll::update`: a failure to delete is only logged.
  pub ctl_update : EPoll → Op → ℕ → Result EPoll
  ctl_update w op p =
      let c = w.channels p in
      elim (ctl w.kernel op c.fd c.events p) [
        | some k ↦ ok (record w { kernel = k })
        | none ↦ elim op [ del ↦ ok w | _ ↦ fail Fault.fatal ]
      ]

  -- The branch for `kNew` and `kDeleted`; `kAdded` is 1.
  pub enter : EPoll → ℕ → Bool → Result EPoll
  unfolding ctl_update
  enter w p is_new =
      let fd = (w.channels p).fd in
      ctl_update
        (record w {
          map = if is_new then update w.map fd (some p) else w.map;
          channels = set_idx w.channels p (pos 1);
        })
        add p

  pub modify : EPoll → ℕ → Result EPoll
  unfolding ctl_update
  modify w p = do
    let c = w.channels p
    guard (is_mapped w.map c.fd p)
    guard (elim c.idx [ pos i ↦ i == 1 | negsuc n ↦ false ])
    if is_none_event c
        then (do
          w' ← ctl_update w del p
          ok (record w' { channels = set_idx w'.channels p (pos 2) }))
        else ctl_update w mod_ p

  pub update_channel : EPoll → ℕ → Result EPoll
  unfolding enter modify
  update_channel w p = elim (w.channels p).idx [
    | negsuc n ↦ if n == 0 then enter w p true else modify w p
    | pos i ↦ if i == 2 then enter w p false else modify w p
  ]

  pub remove_channel : EPoll → ℕ → Result EPoll
  unfolding ctl_update
  remove_channel w p = do
    let c = w.channels p
    guard (elim (w.map c.fd) [ none ↦ false | some q ↦ true ])
    let w₁ = record w { map = update w.map c.fd none }
    w₂ ← elim c.idx [ negsuc n ↦ ok w₁ | pos i ↦ if i == 1 then ctl_update w₁ del p else ok w₁ ]
    ok (record w₂ { channels = set_idx w₂.channels p (negsuc 0) })

  -- `fillActiveChannels`, over the events and pointers that `epoll_wait` has stored.
  pub fill_active : Channels → List (ℕ × ℕ) → List ℕ × Channels
  fill_active cs [] = ([], cs)
  fill_active cs ((ev, p) ∷ rest) =
      let (active, cs') = fill_active (set_revents cs p ev) rest in (p ∷ active, cs')
