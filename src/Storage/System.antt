-- ===== src/Storage/System.antt =====
-- What src/storage/posix_file.cc and src/agent/storage_agent.cc ask of std::filesystem and of the
-- operating system, as parameters: nothing of it is defined here. A path is a byte string. The
-- successive calls of pread are a list of functions from the size and the offset asked for.
use flume_ascend_host_bypass.Prelude.{ℕ, Bool, List}
use flume_ascend_host_bypass.Protocol.Stream.{Received}

-- A call that returns a descriptor, or -1 with errno.
pub data Descriptor : Type 0 where
  handle : ℕ → Descriptor
  errno : ℕ → Descriptor

pub data Stat : Type 0 where
  failed : ℕ → Stat
  entry : Bool → ℕ → Stat

-- std::filesystem::weakly_canonical: the path, or what the filesystem_error says.
pub data Canonical : Type 0 where
  path : List ℕ → Canonical
  throws : List ℕ → Canonical

-- What assigning a number of bytes to a vector comes to.
pub data Allocation : Type 0 where
  allocated : Allocation
  bad_alloc : Allocation
  length_error : Allocation

pub record System : Type 0 where
  pub is_absolute : List ℕ → Bool
  pub components : List ℕ → List (List ℕ)
  pub join : List ℕ → List ℕ → List ℕ
  pub weakly_canonical : List ℕ → Canonical
  pub open_read_only : List ℕ → Descriptor
  pub fstat : ℕ → Stat
  pub dup : ℕ → Descriptor
  pub preads : List (ℕ → ℕ → Received)
  pub allocates : ℕ → Allocation
  pub strerror : ℕ → List ℕ
