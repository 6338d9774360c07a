-- ===== src/FdManager/Tests.antt =====
-- The theorems at concrete inputs.
use cor_reactor.Base.{some, true, arith}
use cor_reactor.FdManager.{Fstat, fd_manager}
use cor_reactor.FdManager.Lookup.{IsValid}

abbrev socket_3 : Fstat
socket_3 fd = some true

fd_manager-IsValid : IsValid fd_manager
unfolding fd_manager
fd_manager-IsValid = omega arith
