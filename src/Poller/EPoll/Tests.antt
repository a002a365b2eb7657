-- ===== src/Poller/EPoll/Tests.antt =====
-- A kernel that does what epoll_ctl(2) documents, and the theorems on `EPoll` in it.
use chtho.Prelude.{
  ℕ, ◌≡◌, refl, true, Option, none, Option-cases, ap, sym, some, ok, inl, inr, ◌==◌, if◌then◌else◌,
  pos, negsuc, update, arith,
}
use mathlib.Core.Option.{some-injective}
use chtho.Poller.{Channels}
use chtho.Poller.EPoll.{Op, add, mod_, del, EpollApi, EPoll, update_channel, remove_channel}
use chtho.Poller.EPoll.Registered.{
  IsRegistered, with_events, Updates, update-Updates, remove_channel-IsRegistered,
}

abbrev Interest : Type 0
Interest = ℕ → Option (ℕ × ℕ)

-- `ADD` wants a descriptor that is not in the list, the others one that is.
ctl : Interest → Op → ℕ → ℕ → ℕ → Option Interest
ctl k add fd ev p = elim (k fd) [ none ↦ some (update k fd (some (ev, p))) | some e ↦ none ]
ctl k mod_ fd ev p = elim (k fd) [ none ↦ none | some e ↦ some (update k fd (some (ev, p))) ]
ctl k del fd ev p = elim (k fd) [ none ↦ none | some e ↦ some (update k fd none) ]

changed_at : (g k' : Interest) → some g ≡ some k' → (f : ℕ) → k' f ≡ g f
changed_at g k' e f = ap (λ (h : Interest). h f) (sym (some-injective g k' e))

ctl_add :
    (k k' : Interest) (fd ev p : ℕ)
    → ctl k add fd ev p ≡ some k'
    → (f : ℕ) → k' f ≡ update k fd (some (ev, p)) f
unfolding ctl
ctl_add k k' fd ev p e f = elim (Option-cases (k fd)) [
  | inl n ↦ changed_at (update k fd (some (ev, p))) k' (rw (n, ctl) at e) f
  | inr (x, n) ↦ let bad = rw (n, ctl) at e in cc
]

ctl_mod :
    (k k' : Interest) (fd ev p : ℕ)
    → ctl k mod_ fd ev p ≡ some k'
    → (f : ℕ) → k' f ≡ update k fd (some (ev, p)) f
unfolding ctl
ctl_mod k k' fd ev p e f = elim (Option-cases (k fd)) [
  | inl n ↦ let bad = rw (n, ctl) at e in cc
  | inr (x, n) ↦ changed_at (update k fd (some (ev, p))) k' (rw (n, ctl) at e) f
]

ctl_add_exists : (k : Interest) (fd ev p : ℕ) (e : ℕ × ℕ) → k fd ≡ some e → ctl k add fd ev p ≡ none
unfolding ctl
ctl_add_exists k fd ev p e there = rw (there, ctl)

ctl_mod_missing : (k : Interest) (fd ev p : ℕ) → k fd ≡ none → ctl k mod_ fd ev p ≡ none
unfolding ctl
ctl_mod_missing k fd ev p free = rw (free, ctl)

ctl_add_accepted :
    (k : Interest) (fd ev p : ℕ)
    → true ≡ true
    → k fd ≡ none
    → (k' : Interest) × (ctl k add fd ev p ≡ some k')
unfolding ctl
ctl_add_accepted k fd ev p h free = (update k fd (some (ev, p)), rw (free, ctl))

ctl_mod_accepted :
    (k : Interest) (fd ev p : ℕ) (e : ℕ × ℕ)
    → true ≡ true
    → k fd ≡ some e
    → (k' : Interest) × (ctl k mod_ fd ev p ≡ some k')
unfolding ctl
ctl_mod_accepted k fd ev p e h there = (update k fd (some (ev, p)), rw (there, ctl))

ctl_del :
    (k : Interest) (fd ev p : ℕ) (x : ℕ × ℕ)
    → k fd ≡ some x
    → (k' : Interest) × (ctl k del fd ev p ≡ some k') × ((f : ℕ) → k' f ≡ update k fd none f)
unfolding ctl
ctl_del k fd ev p x e = (update k fd none, rw (e, ctl), λ f. refl)

abbrev kernel : EpollApi
kernel = record {
  Kernel = Interest;
  interest = λ k. k;
  ctl = ctl;
  accepts = λ k fd. true;
  ctl_add = ctl_add;
  ctl_mod = ctl_mod;
  ctl_add_exists = ctl_add_exists;
  ctl_mod_missing = ctl_mod_missing;
  ctl_add_accepted = ctl_add_accepted;
  ctl_mod_accepted = ctl_mod_accepted;
  ctl_del = ctl_del;
}

-- Channel 1 is watched for reading at descriptor 7, the others are new.
abbrev channels : Channels
channels p =
    if p == 1
    then record { fd = 7; events = 3; revents = 0; idx = pos 1 }
    else record { fd = 11; events = 0; revents = 0; idx = negsuc 0 }

abbrev one : EPoll kernel
one = record {
  kernel = λ fd. if fd == 7 then some (3, 1) else none;
  map = λ fd. if fd == 7 then some 1 else none;
  channels = channels;
}

one-IsRegistered : IsRegistered kernel one
one-IsRegistered = record {
  watched = λ fd p m. (ground arith, inl (ground arith, ground arith));
  unknown = λ fd m. ground arith;
}

update-Updates_example :
    Updates kernel one 1 0 (update_channel kernel (with_events kernel one 1 0) 1)
update-Updates_example = update-Updates kernel one one-IsRegistered 1 0 (inl refl)

remove_channel-IsRegistered_example :
    (w' : EPoll kernel) × (remove_channel kernel one 1 ≡ ok w')
    × IsRegistered kernel w'
    × ((w'.channels 1).idx ≡ negsuc 0)
    × ((f : ℕ) → w'.map f ≡ update one.map 7 none f)
    × ((f : ℕ) → w'.kernel f ≡ update one.kernel 7 none f)
remove_channel-IsRegistered_example =
    remove_channel-IsRegistered kernel one one-IsRegistered 1 0 refl
