-- ===== src/Translations/Ko/Node.antt =====
-- The Korean texts of the tabs and the pages of the node, lines 1936 to 2013 of frontend/src/i18n/translations.ts.
use lokinode.Translations.Table.{Table}
use mathlib.Core.List.{[], ◌∷◌}

unfoldable pub texts : Table
texts =
    ("tab.overview", "개요")
    ∷ ("tab.history", "거래 내역")
    ∷ ("tab.receive", "받기")
    ∷ ("tab.send", "보내기")
    ∷ ("tab.security", "보안")
    ∷ ("tab.network", "네트워크")
    ∷ ("tab.logs", "로그")
    ∷ ("tab.about", "정보")
    ∷ ("logs.live", "실시간")
    ∷ ("logs.connecting", "연결 중…")
    ∷ ("logs.reconnecting", "재연결 중…")
    ∷ ("logs.lines", "{{count}}줄")
    ∷ ("logs.offline", "로그 스트림에 연결할 수 없습니다.")
    ∷ ("logs.waiting", "로그 출력을 기다리는 중…")
    ∷ ("logs.latest", "최신")
    ∷ ("logs.title", "노드 로그")
    ∷ ("node.balance", "총 잔액")
    ∷ ("node.connecting", "연결 중…")
    ∷ ("node.status.locked", "잠금됨")
    ∷ ("node.status.starting", "시작 중")
    ∷ ("node.status.restarting", "재시작 중")
    ∷ ("node.status.syncing", "동기화 중")
    ∷ ("node.status.active", "노드 실행 중")
    ∷ ("node.status.error", "노드 오류")
    ∷ ("node.status.locking_wallet", "지갑 잠금 중")
    ∷ ("node.status.sub.locked", "탭하여 지갑 잠금 해제")
    ∷ ("node.status.sub.locking", "데몬 재시작 중 · 잠금 해제 화면이 곧 표시됩니다")
    ∷ ("node.status.sub.restarting", "재시작 중…")
    ∷ ("node.status.sub.stopping", "데몬 종료를 기다리는 중…")
    ∷ ("node.status.sub.retrying", "데몬 중지됨 · 탭하여 재시도")
    ∷ ("node.status.sub.recover", "데몬 중지됨 · 탭하여 복구")
    ∷ ("node.status.recovering", "복구 중…")
    ∷ ("node.sync.init", "초기화 중…")
    ∷ ("node.sync.none", "시작 중…")
    ∷ ("node.sync.unlocked", "지갑 잠금 해제됨, 동기화 중…")
    ∷ ("node.sync.syncing", "블록체인 동기화 중…")
    ∷ ("node.sync.scanning", "지갑 기록 스캔 중…")
    ∷ ("node.sync.tx", "트랜잭션 처리 중…")
    ∷ ("node.sync.default", "체인에 연결 중…")
    ∷ ("node.sync.slow", "예상보다 오래 걸립니다 — 로그를 열거나 노드를 중지하세요")
    ∷ ("node.open_folder", "데이터 폴더 열기")
    ∷ ("node.errors.open_folder_failed", "폴더를 열 수 없습니다")
    ∷ ("node.stop", "노드 중지")
    ∷ ("node.stop.confirm", "중지하시겠습니까?")
    ∷ ("node.power_off", "전원 끄기")
    ∷ ("node.power_off.confirm", "노드를 끄시겠습니까?")
    ∷ ("node.stopping", "중지 중…")
    ∷ ("node.lock", "노드 잠금")
    ∷ ("node.lock.confirm", "잠금하시겠습니까?")
    ∷ ("node.locking", "잠금 중…")
    ∷ ("node.lokihub", "LokiHub")
    ∷ ("node.stop_logs_hint", "실시간 로그 보기")
    ∷ ("unlock.title", "지갑 잠금 해제")
    ∷ ("unlock.subtitle", "노드를 활성화하려면 암호를 입력하세요")
    ∷ ("unlock.placeholder", "암호")
    ∷ ("unlock.button", "잠금 해제")
    ∷ ("unlock.loading", "잠금 해제 중…")
    ∷ ("unlock.success", "지갑 잠금이 해제되었습니다")
    ∷ ("unlock.error.title", "비밀번호가 올바르지 않습니다")
    ∷ ("unlock.error.desc", "암호를 확인하고 다시 시도해 주세요.")
    ∷ ("overview.network", "네트워크")
    ∷ ("overview.alias", "별칭")
    ∷ ("overview.sync", "동기화")
    ∷ ("overview.synced", "동기화됨")
    ∷ ("overview.block", "블록")
    ∷ ("overview.last_block", "최신 블록 {{time}}")
    ∷ ("overview.last_block_label", "최신 블록")
    ∷ ("overview.pubkey", "공개키")
    ∷ ("overview.data_dir", "데이터 폴더")
    ∷ ("overview.confirmed", "확인됨")
    ∷ ("overview.pending", "대기 중")
    ∷ ("overview.locked", "잠금됨")
    ∷ ("time.seconds_ago", "{{n}}초 전")
    ∷ ("time.minutes_ago", "{{n}}분 전")
    ∷ ("time.hours_ago", "{{n}}시간 전")
    ∷ ("time.days_ago", "{{n}}일 전")
    ∷ ("time.months_ago", "{{n}}개월 전")
    ∷ ("time.years_ago", "{{n}}년 전")
    ∷ []
