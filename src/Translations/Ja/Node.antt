-- ===== src/Translations/Ja/Node.antt =====
-- The Japanese texts of the tabs and the pages of the node, lines 1576 to 1653 of frontend/src/i18n/translations.ts.
use lokinode.Translations.Table.{Table}
use mathlib.Core.List.{[], ◌∷◌}

unfoldable pub texts : Table
texts =
    ("tab.overview", "概要")
    ∷ ("tab.history", "取引履歴")
    ∷ ("tab.receive", "受け取る")
    ∷ ("tab.send", "送金")
    ∷ ("tab.security", "セキュリティ")
    ∷ ("tab.network", "ネットワーク")
    ∷ ("tab.logs", "ログ")
    ∷ ("tab.about", "アプリ情報")
    ∷ ("logs.live", "ライブ")
    ∷ ("logs.connecting", "接続中…")
    ∷ ("logs.reconnecting", "再接続中…")
    ∷ ("logs.lines", "{{count}} 行")
    ∷ ("logs.offline", "ログストリームに接続できません。")
    ∷ ("logs.waiting", "ログ出力を待っています…")
    ∷ ("logs.latest", "最新")
    ∷ ("logs.title", "ノードログ")
    ∷ ("node.balance", "総残高")
    ∷ ("node.connecting", "接続中…")
    ∷ ("node.status.locked", "ロック中")
    ∷ ("node.status.starting", "起動中")
    ∷ ("node.status.restarting", "再起動中")
    ∷ ("node.status.syncing", "同期中")
    ∷ ("node.status.active", "ノード稼働中")
    ∷ ("node.status.error", "ノードエラー")
    ∷ ("node.status.locking_wallet", "ウォレットをロック中")
    ∷ ("node.status.sub.locked", "タップしてウォレットのロックを解除")
    ∷ ("node.status.sub.locking", "デーモン再起動中 · まもなくロック解除画面が表示されます")
    ∷ ("node.status.sub.restarting", "再起動中…")
    ∷ ("node.status.sub.stopping", "デーモンの終了を待っています…")
    ∷ ("node.status.sub.retrying", "デーモン停止中 · タップして再試行")
    ∷ ("node.status.sub.recover", "デーモン停止中 · タップして回復")
    ∷ ("node.status.recovering", "回復中…")
    ∷ ("node.sync.init", "初期化中…")
    ∷ ("node.sync.none", "起動中…")
    ∷ ("node.sync.unlocked", "ウォレットのロックを解除しました。同期中…")
    ∷ ("node.sync.syncing", "ブロックチェーン同期中…")
    ∷ ("node.sync.scanning", "ウォレット履歴をスキャン中…")
    ∷ ("node.sync.tx", "トランザクションを処理中…")
    ∷ ("node.sync.default", "チェーンに接続中…")
    ∷ ("node.sync.slow", "予想より時間がかかっています — ログを開くかノードを停止してください")
    ∷ ("node.open_folder", "データフォルダを開く")
    ∷ ("node.errors.open_folder_failed", "フォルダを開けませんでした")
    ∷ ("node.stop", "ノードを停止")
    ∷ ("node.stop.confirm", "停止しますか？")
    ∷ ("node.power_off", "停止する")
    ∷ ("node.power_off.confirm", "ノードを停止しますか？")
    ∷ ("node.stopping", "停止中…")
    ∷ ("node.lock", "ノードをロック")
    ∷ ("node.lock.confirm", "ロックしますか？")
    ∷ ("node.locking", "ロック中…")
    ∷ ("node.lokihub", "LokiHub")
    ∷ ("node.stop_logs_hint", "ライブログを表示")
    ∷ ("unlock.title", "ウォレットのロック解除")
    ∷ ("unlock.subtitle", "ノードを起動するにはパスフレーズを入力してください")
    ∷ ("unlock.placeholder", "パスフレーズ")
    ∷ ("unlock.button", "ロック解除")
    ∷ ("unlock.loading", "ロック解除中…")
    ∷ ("unlock.success", "ウォレットのロックが解除されました")
    ∷ ("unlock.error.title", "パスワードが違います")
    ∷ ("unlock.error.desc", "パスフレーズを確認してもう一度お試しください。")
    ∷ ("overview.network", "ネットワーク")
    ∷ ("overview.alias", "エイリアス")
    ∷ ("overview.sync", "同期")
    ∷ ("overview.synced", "同期済み")
    ∷ ("overview.block", "ブロック")
    ∷ ("overview.last_block", "最終ブロック {{time}}")
    ∷ ("overview.last_block_label", "最終ブロック")
    ∷ ("overview.pubkey", "公開鍵")
    ∷ ("overview.data_dir", "データフォルダ")
    ∷ ("overview.confirmed", "確認済み")
    ∷ ("overview.pending", "保留中")
    ∷ ("overview.locked", "ロック済み")
    ∷ ("time.seconds_ago", "{{n}}秒前")
    ∷ ("time.minutes_ago", "{{n}}分前")
    ∷ ("time.hours_ago", "{{n}}時間前")
    ∷ ("time.days_ago", "{{n}}日前")
    ∷ ("time.months_ago", "{{n}}ヶ月前")
    ∷ ("time.years_ago", "{{n}}年前")
    ∷ []
