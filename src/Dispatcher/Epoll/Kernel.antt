-- ===== src/Dispatcher/Epoll/Kernel.antt =====
-- What src/net/dispatcher/epoll.cc calls of <sys/epoll.h>, and what is documented of it.
use libolptnet.Base.{ℤ, pos, ◌==ℤ◌, ◌≡◌, Option, none, some, if◌then◌else◌}
use libolptnet.Dispatcher.Base.{Flags}

-- EPOLL_CTL_ADD, EPOLL_CTL_MOD and EPOLL_CTL_DEL.
pub data Ctl : Type 0 where
  ctl_add ctl_mod ctl_del : Ctl

-- ENOENT.
abbrev pub enoent : ℤ
enoent = pos 2

-- `epoll_ctl` answers with no error (0), or with -1 and an `errno`. `interest` is the interest list
-- of an instance.
pub record EpollKernel (K : Type 0) : Type 0 where
  pub epoll_ctl : K → Ctl → ℤ → Flags → Option ℤ × K

-- A call that fails changes nothing, and one that succeeds does what its name says. Deleting fails
-- with ENOENT only for a handle that is not in the list.
pub record KernelLaws {K : Type 0} (kernel_ops : EpollKernel K) : Type 0 where
  pub interest : K → ℤ → Option Flags
  pub fails :
      (k : K) (op : Ctl) (h : ℤ) (f : Flags) (errno : ℤ)
      → (kernel_ops.epoll_ctl k op h f).0 ≡ some errno
      → (g : ℤ) → interest (kernel_ops.epoll_ctl k op h f).1 g ≡ interest k g
  pub adds :
      (k : K) (h : ℤ) (f : Flags)
      → (kernel_ops.epoll_ctl k ctl_add h f).0 ≡ none
      → (g : ℤ)
      → interest (kernel_ops.epoll_ctl k ctl_add h f).1 g
        ≡ (if g ==ℤ h then some f else interest k g)
  pub modifies :
      (k : K) (h : ℤ) (f : Flags)
      → (kernel_ops.epoll_ctl k ctl_mod h f).0 ≡ none
      → (g : ℤ)
      → interest (kernel_ops.epoll_ctl k ctl_mod h f).1 g
        ≡ (if g ==ℤ h then some f else interest k g)
  pub deletes :
      (k : K) (h : ℤ) (f : Flags)
      → (kernel_ops.epoll_ctl k ctl_del h f).0 ≡ none
      → (g : ℤ)
      → interest (kernel_ops.epoll_ctl k ctl_del h f).1 g ≡ (if g ==ℤ h then none else interest k g)
  pub missing :
      (k : K) (h : ℤ) (f : Flags)
      → (kernel_ops.epoll_ctl k ctl_del h f).0 ≡ some enoent
      → interest k h ≡ none
